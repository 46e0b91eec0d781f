-- ===== src/Oidc/Exchange.antt =====
-- src/oidc.rs: `handle_auth_code`, the exchange of an authorization code at the token endpoint, and
-- `revoke_refresh_token_family`.
pub mod Single
pub mod Codes
pub mod Pkce
use janux.Common.{
  Bool, List, Option, Text, chars, contains, false, if◌then◌else◌, is_empty, leb, length, ltb, none,
  not, some, text_eq, true, ℕ, ◌&&◌, ◌*◌, ◌+◌, ◌/◌, ◌==◌,
}
use janux.Tenant.{Tenant}
use janux.Ephem.{get_one_shot}
use janux.Oidc.Consents.{auth_grant_by_code_hash, auth_grant_revoke_jti}
use janux.Oidc.ConstantTime.{constant_time_eq}
use janux.Revocation.{second, Store, invalid_raw}
use janux.Oidc.{
  AuthGrant, OAuth2Client, TokenError, invalid_request, invalid_client, invalid_grant, server_error,
  TokenReply, issued, refused, require_active_user, clamped_token_lifetime_minutes,
}
use janux.Oidc.Codes.{CodeEntry, Services, Flow, Call, TokenRequest, code_key, pkce_key}
use janux.Oidc.Issue.{
  Grant, Subject, sign_tokens, oidc_refresh_family_lifetime, remember, access_entry,
  refresh_family_marker,
}

-- A second as a timestamp in nanoseconds, the clock's where it is out of range.
abbrev pub until_second : ℕ → ℕ → ℕ → ℕ
until_second latest secs now = if leb (secs * second) latest then secs * second else now * second

-- The check of the redirect URI against the registered ones.
abbrev pub redirect_fault : List Text → Option Text → Option TokenError
redirect_fault registered none = if length registered == 1 then none else some invalid_request
redirect_fault registered (some provided) =
    if contains provided registered then none else some invalid_grant

-- The check of the redirect URI against the one of the authorization request.
abbrev pub redirect_differs : Text → Option Text → Bool
redirect_differs callback_uri none = false
redirect_differs callback_uri (some provided) = not (text_eq callback_uri provided)

module _ (s : Services) (t : Tenant) (q : Call) where
  unfoldable pub revoke_refresh_token_family : Store → Text → ℕ → Store
  revoke_refresh_token_family store family family_end =
      (invalid_raw s.digest s.latest store (refresh_family_marker family)
        (until_second s.latest family_end q.now) q.poison_fails).0

  -- A code that is not in the cache: where a grant was recorded for it, its family of refresh tokens
  -- and the grant are revoked.
  unfoldable pub replayed_grant : Flow → AuthGrant → Flow
  unfolding revoke_refresh_token_family
  replayed_grant f g = record f {
    store = revoke_refresh_token_family f.store g.jti (g.expires_at + oidc_refresh_family_lifetime);
    grants = auth_grant_revoke_jti f.grants g.jti;
  }

  unfoldable pub replayed_code : Flow → Text → Flow
  unfolding replayed_grant
  replayed_code f code = elim (auth_grant_by_code_hash f.grants (s.code_hash code)) [
    | none ↦ f
    | some g ↦ replayed_grant f g
  ]

  -- The check of a verifier against the challenge that is parked.
  unfoldable pub challenge_met : Text → Option Text → Text → Bool
  unfolding constant_time_eq
  challenge_met method none verifier = false
  challenge_met method (some challenge) verifier =
      text_eq method (chars "s256") && constant_time_eq (s.s256 verifier) challenge

  unfoldable pub verifier_met : Text → Option Text → Option Text → Bool
  unfolding challenge_met
  verifier_met method challenge none = false
  verifier_met method challenge (some verifier) =
      not (is_empty verifier) && challenge_met method challenge verifier

  -- A code without a method needs no verifier.
  unfoldable pub pkce_met : Option Text → Option Text → Option Text → Bool
  unfolding verifier_met
  pkce_met none challenge verifier = true
  pkce_met (some method) challenge verifier = verifier_met method challenge verifier

  abbrev pub access_ceiling_minutes : ℕ
  access_ceiling_minutes = 60

  -- What the tokens of an exchange are made from.
  unfoldable pub exchange_grant : OAuth2Client → TokenRequest → CodeEntry → Grant
  unfolding clamped_token_lifetime_minutes
  exchange_grant client params e = record {
    issuer = q.issuer;
    aud = client.id;
    client_id = client.id;
    scope = e.scope;
    nonce = e.nonce;
    access_nonce = none;
    jti = e.jti;
    family = e.jti;
    family_created_at = q.now;
    refresh_minutes = oidc_refresh_family_lifetime / 60;
    access_minutes = clamped_token_lifetime_minutes params.lifetime access_ceiling_minutes;
    who = record { user_id = e.user_id; mfa = e.mfa; auth_time = e.auth_time };
    now = q.now;
  }

  -- Signing the tokens and caching the access token.
  unfoldable pub answer : Flow → Grant → Flow × TokenReply
  unfolding sign_tokens remember access_entry
  answer f g = if not q.has_key then (f, refused server_error) else (elim (sign_tokens s.sign g) [
    | none ↦ (f, refused server_error)
    | some reply ↦ (
      record f {
        tokens =
            remember f.tokens reply.access_token (
              access_entry g.issuer g.client_id g.scope g.jti g.nonce g.who g.now g.access_minutes);
      },
      issued reply,
    )
  ])

  -- The checks on the entry before the challenge.
  unfoldable pub entry_fault : OAuth2Client → TokenRequest → CodeEntry → Option TokenError
  unfolding require_active_user
  entry_fault client params e =
      if not (text_eq e.client_id client.id)
      then some invalid_client
      else if ltb e.expires_at q.now
      then some invalid_grant
      else if redirect_differs e.callback_uri params.redirect_uri
      then some invalid_grant
      else if is_empty e.user_id
      then some invalid_grant
      else if not (require_active_user s.parse_uuid t e.user_id)
      then some invalid_grant
      else none

  -- From taking the challenge out on.
  unfoldable pub exchange_checked :
      Flow → OAuth2Client → TokenRequest → Text → CodeEntry → Flow × TokenReply
  unfolding get_one_shot pkce_met answer exchange_grant
  exchange_checked f client params code e =
      let (pkce, challenge) = get_one_shot f.pkce (pkce_key code) in
      let f' : Flow = record f { pkce = pkce } in
      if not (pkce_met e.code_challenge_method challenge params.code_verifier)
      then (f', refused invalid_grant)
      else answer f' (exchange_grant client params e)

  -- From taking the entry out on.
  unfoldable pub exchange_entry :
      Flow → OAuth2Client → TokenRequest → Text → Option CodeEntry → Flow × TokenReply
  unfolding replayed_code entry_fault exchange_checked
  exchange_entry f client params code none = (replayed_code f code, refused invalid_grant)
  exchange_entry f client params code (some e) = elim (entry_fault client params e) [
    | some fault ↦ (f, refused fault)
    | none ↦ exchange_checked f client params code e
  ]

  unfoldable pub exchange_code :
      Flow → List Text → OAuth2Client → TokenRequest → Text → Flow × TokenReply
  unfolding get_one_shot exchange_entry
  exchange_code f registered client params code =
      elim (redirect_fault registered params.redirect_uri) [
        | some fault ↦ (f, refused fault)
        | none ↦
            let (codes, entry) = get_one_shot f.auth_codes (code_key code) in
            exchange_entry (record f { auth_codes = codes }) client params code entry
      ]

  -- `registered` are the redirect URIs of the client.
  unfoldable pub handle_auth_code :
      Flow → List Text → OAuth2Client → TokenRequest → Flow × TokenReply
  unfolding exchange_code
  handle_auth_code f registered client params = elim params.code [
    | none ↦ (f, refused invalid_request)
    | some code ↦
        if is_empty code
        then (f, refused invalid_request)
        else exchange_code f registered client params code
  ]
