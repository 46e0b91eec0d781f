-- ===== src/Oidc/Refresh.antt =====
-- src/oidc.rs: `handle_refresh`, the rotation of a refresh token at the token endpoint.
pub mod Rotated
pub mod Family
pub mod Once
use janux.Common.{
  Bool, Option, Text, chars, false, if◌then◌else◌, is_empty, leb, min, none, not, some, text_eq,
  trim, true, ℕ, ◌*◌, ◌+◌, ◌-◌, ◌/◌, ◌||◌,
}
use janux.Tenant.{Tenant}
use janux.Revocation.{Store, is_valid, second, invalid_raw}
use janux.Oidc.Scopes.{scopes_cover}
use janux.Oidc.{
  OAuth2Client, TokenError, invalid_request, invalid_client, invalid_grant, invalid_scope,
  server_error, TokenReply, TokenResponse, issued, refused, clamped_token_lifetime_minutes,
  require_active_user,
}
use janux.Oidc.Codes.{RefreshClaim, Services, Flow, Call, TokenRequest}
use janux.Oidc.Exchange.{revoke_refresh_token_family, access_ceiling_minutes}
use janux.Oidc.Issue.{
  Grant, Subject, oidc_refresh_family_lifetime, remember, refresh_family_end, sign_tokens,
  access_entry, refresh_family_marker,
}

-- The scope of the rotated tokens: the requested one where it is not blank, and then only within the
-- granted one.
unfoldable pub narrowed_scope : Text → Option Text → Option Text
unfolding scopes_cover
narrowed_scope granted none = some granted
narrowed_scope granted (some requested) =
    if is_empty (trim requested)
    then some granted
    else if scopes_cover granted requested
    then some requested
    else none

-- The minutes of the successor, which ends with its family.
unfoldable pub successor_minutes : ℕ → ℕ → ℕ
successor_minutes now family_end = (min (now + oidc_refresh_family_lifetime) family_end - now) / 60

abbrev pub or_now : ℕ → Option ℕ → ℕ
or_now now none = now
or_now now (some t) = t

-- What the rotated tokens are made from. `jti` is a fresh identifier.
unfoldable pub rotation_grant :
    Call → OAuth2Client → TokenRequest → RefreshClaim → Text → Text → Grant
unfolding clamped_token_lifetime_minutes refresh_family_end
rotation_grant q client params c scope jti = record {
  issuer = q.issuer;
  aud = client.id;
  client_id = client.id;
  scope = scope;
  nonce = none;
  access_nonce = none;
  jti = jti;
  family = c.payload.family;
  family_created_at = c.payload.family_created_at;
  refresh_minutes = successor_minutes q.now (refresh_family_end c.payload.family_created_at);
  access_minutes = clamped_token_lifetime_minutes params.lifetime 60;
  who = record { user_id = c.sub; mfa = c.payload.mfa; auth_time = or_now q.now c.auth_time };
  now = q.now;
}

module _ (s : Services) (t : Tenant) (q : Call) where
  abbrev pub with_store : Flow → Store → Flow
  with_store f store = record f { store = store }

  -- Whether the token or its family is revoked; the second check runs when the first one fails.
  unfoldable pub reuse_detected : Store → Text → Text → Store × Bool
  unfolding is_valid
  reuse_detected store rt family =
      let (store', gone) = is_valid s.digest s.latest store rt (q.now * second) in
      if gone
      then (store', true)
      else is_valid s.digest s.latest store' (refresh_family_marker family) (q.now * second)

  unfoldable pub poisoned : Flow → RefreshClaim → Flow × TokenReply
  unfolding revoke_refresh_token_family refresh_family_end
  poisoned f c = (
    record f {
      store =
          revoke_refresh_token_family s t q f.store c.payload.family
            (refresh_family_end c.payload.family_created_at);
    },
    refused invalid_grant,
  )

  -- The revocation of the presented token is the commit: one presenter of it wins.
  unfoldable pub commit_rotation :
      Flow → Grant → RefreshClaim → TokenResponse → Store × Option Bool → Flow × TokenReply
  unfolding poisoned remember access_entry
  commit_rotation f g c reply (store, none) = (with_store f store, refused server_error)
  commit_rotation f g c reply (store, some false) = poisoned (with_store f store) c
  commit_rotation f g c reply (store, some true) = (
    record f {
      store = store;
      tokens =
          remember f.tokens reply.access_token
            (access_entry g.issuer g.client_id g.scope g.jti none g.who g.now g.access_minutes);
    },
    issued reply,
  )

  -- Signing, then the commit.
  unfoldable pub rotate_tokens : Flow → Grant → RefreshClaim → Text → Flow × TokenReply
  unfolding commit_rotation sign_tokens invalid_raw
  rotate_tokens f g c rt =
      if not q.has_key then (f, refused server_error) else (elim (sign_tokens s.sign g) [
        | none ↦ (f, refused server_error)
        | some reply ↦
            commit_rotation f g c reply
              (invalid_raw s.digest s.latest f.store rt (c.exp * second) q.revoke_fails)
      ])

  -- The live state of the user and the scope, once the token is known to be good.
  unfoldable pub rotate_live :
      Flow → OAuth2Client → TokenRequest → RefreshClaim → Text → Text → Flow × TokenReply
  unfolding require_active_user narrowed_scope rotate_tokens rotation_grant
  rotate_live f client params c rt jti =
      if not (require_active_user s.parse_uuid t c.sub)
      then (f, refused invalid_grant)
      else (elim (narrowed_scope c.payload.scope params.scope) [
        | none ↦ (f, refused invalid_scope)
        | some scope ↦ rotate_tokens f (rotation_grant q client params c scope jti) c rt
      ])

  unfoldable pub refresh_claim :
      Flow → OAuth2Client → TokenRequest → RefreshClaim → Text → Text → Flow × TokenReply
  unfolding refresh_family_end reuse_detected poisoned rotate_live
  refresh_claim f client params c rt jti =
      if not (text_eq c.iss q.issuer)
        || not (text_eq c.payload.typ (chars "refresh"))
        || not (text_eq c.payload.client_id client.id)
      then (f, refused invalid_grant)
      else if leb (refresh_family_end c.payload.family_created_at) q.now
      then (f, refused invalid_grant)
      else (let (store, reused) = reuse_detected f.store rt c.payload.family in
          if reused
          then poisoned (with_store f store) c
          else rotate_live (with_store f store) client params c rt jti)

  unfoldable pub refresh_presented :
      Flow → OAuth2Client → TokenRequest → Text → Text → Flow × TokenReply
  unfolding refresh_claim
  refresh_presented f client params rt jti = elim (s.decode_refresh rt q.now) [
    | none ↦ (f, refused invalid_grant)
    | some c ↦ refresh_claim f client params c rt jti
  ]

  unfoldable pub handle_refresh : Flow → OAuth2Client → TokenRequest → Text → Flow × TokenReply
  unfolding refresh_presented
  handle_refresh f client params jti = elim params.refresh_token [
    | none ↦ (f, refused invalid_request)
    | some rt ↦
        if is_empty rt
        then (f, refused invalid_request)
        else refresh_presented f client params rt jti
  ]
