-- ===== src/Oidc/Codes.antt =====
-- src/oidc.rs: authorization codes. A code is parked in a cache, with its PKCE challenge and a grant
-- in the table; the token endpoint takes it out again. What is not of this repository (hashes,
-- parsing, signing, decoding) is in `Services`.
pub mod Issued
use janux.Common.{
  Bool, List, Option, Text, [], chars, if◌then◌else◌, is_some, lookup, ltb, none, some, ℕ, ℤ, ◌*◌,
  ◌++◌, ◌+◌, ◌∷◌,
}
use janux.Revocation.{Store, second}
use janux.Oidc.Consents.{auth_grant_create}
use janux.Ephem.{Entries, insert, drop_entry, put}
use janux.Oidc.{
  AuthGrant, OAuth2Client, Signing, TokenError, invalid_request, invalid_client, invalid_grant,
  server_error, TokenReply, issued, refused, AccessEntry, OidcRefreshTokenData,
}

-- A decoded refresh token. Times are in seconds.
pub record RefreshClaim : Type 0 where
  pub iss : Text
  pub sub : Text
  pub exp : ℕ
  pub auth_time : Option ℕ
  pub payload : OidcRefreshTokenData

pub record Services : Type 0 where
  pub digest : Text → Text
  pub latest : ℕ
  pub parse_uuid : Text → Option Text
  pub sign : Signing → Option Text
  pub decode_refresh : Text → ℕ → Option RefreshClaim
  pub code_hash : Text → Text
  pub s256 : Text → Text

pub record CodeEntry : Type 0 where
  pub client_id : Text
  pub callback_uri : Text
  pub user_id : Text
  pub scope : Text
  pub nonce : Option Text
  pub code_challenge_method : Option Text
  pub mfa : List Text
  pub auth_time : ℕ
  pub jti : Text
  pub created_at : ℕ
  pub expires_at : ℕ

-- What the provider keeps between requests.
pub record Flow : Type 0 where
  pub grants : List AuthGrant
  pub auth_codes : Entries CodeEntry
  pub pkce : Entries Text
  pub tokens : Entries AccessEntry
  pub store : Store

-- What holds for one request: the clock in seconds, the names of the host, whether the domain has a
-- key and whether the calls on the revocation table fail.
pub record Call : Type 0 where
  pub now : ℕ
  pub issuer : Text
  pub domain : Text
  pub has_key : Bool
  pub revoke_fails : Bool
  pub poison_fails : Bool

pub record TokenRequest : Type 0 where
  pub grant_type : Text
  pub code : Option Text
  pub redirect_uri : Option Text
  pub client_id : Text
  pub client_secret : Option Text
  pub code_verifier : Option Text
  pub scope : Option Text
  pub refresh_token : Option Text
  pub device_code : Option Text
  pub lifetime : Option ℤ

abbrev pub code_key : Text → Text
code_key code = chars "auth_code:" ++ code

abbrev pub pkce_key : Text → Text
pkce_key code = chars "pkce:" ++ code

abbrev pub code_lifetime_sec : ℕ
code_lifetime_sec = 600

-- The loop that draws codes until one is not in the cache; `none` when the draws run out.
abbrev pub unused_code : List Text → Entries CodeEntry → Option Text
unused_code [] codes = none
unused_code (candidate ∷ candidates) codes =
    let rest = unused_code candidates codes in
    if is_some (lookup (code_key candidate) codes) then rest else some candidate

-- What `issue_authorization_code` is called with.
pub record CodeRequest : Type 0 where
  pub client_id : Text
  pub callback_uri : Text
  pub user_id : Text
  pub scope : Text
  pub nonce : Option Text
  pub pkce : Option (Text × Text)
  pub mfa : List Text
  pub auth_time : ℕ

abbrev pub pkce_method : Option (Text × Text) → Option Text
pkce_method none = none
pkce_method (some (method, _)) = some method

unfoldable pub code_entry : CodeRequest → Text → ℕ → CodeEntry
code_entry r jti now = record {
  client_id = r.client_id;
  callback_uri = r.callback_uri;
  user_id = r.user_id;
  scope = r.scope;
  nonce = r.nonce;
  code_challenge_method = pkce_method r.pkce;
  mfa = r.mfa;
  auth_time = r.auth_time;
  jti = jti;
  created_at = now;
  expires_at = now + code_lifetime_sec;
}

-- The last step of issuing a code: its challenge, which refuses a code that has one already.
abbrev pub park_challenge : Flow → Text → Option (Text × Text) → Flow × Option Text
park_challenge f code none = (f, some code)
park_challenge f code (some (_, challenge)) =
    let (pkce, fresh) = insert f.pkce (pkce_key code) challenge in
    if fresh
    then (record f { pkce = pkce }, some code)
    else (record f { auth_codes = drop_entry (code_key code) f.auth_codes }, none)

module _ (s : Services) (create_fails : Bool) where
  abbrev pub record_grant : Flow → CodeRequest → Text → Text → ℕ → Option (List AuthGrant)
  record_grant f r jti code now =
      if create_fails
      then none
      else auth_grant_create f.grants jti r.client_id r.user_id r.scope (s.code_hash code)
          (now + code_lifetime_sec)

  unfoldable pub park_code : Flow → CodeRequest → Text → Text → ℕ → Flow × Option Text
  unfolding code_entry
  park_code f r jti code now =
      let parked : Flow = record f {
        auth_codes = put (code_key code) (code_entry r jti now) f.auth_codes;
      } in
      if ltb s.latest ((now + code_lifetime_sec) * second)
      then (parked, none)
      else (elim (record_grant parked r jti code now) [
        | none ↦ (record parked { auth_codes = drop_entry (code_key code) parked.auth_codes }, none)
        | some grants ↦ park_challenge (record parked { grants = grants }) code r.pkce
      ])

  -- The result is the code, or none for the errors. `candidates` are the random draws.
  unfoldable pub issue_authorization_code :
      Flow → CodeRequest → Text → List Text → ℕ → Flow × Option Text
  unfolding park_code
  issue_authorization_code f r jti candidates now = elim (unused_code candidates f.auth_codes) [
    | none ↦ (f, none)
    | some code ↦ park_code f r jti code now
  ]
