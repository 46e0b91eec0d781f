-- ===== src/Oidc.antt =====
-- src/oidc.rs and src/idp.rs: the OpenID Connect provider. The clients and the consent grants that a
-- tenant registers, and what the children share: the token that is signed, the answer of the token
-- endpoint and its errors. Signing a token is a parameter. A call reads the clock once, in seconds.
pub mod Revoke
pub mod Scopes
pub mod Authorize
pub mod Clients
pub mod Codes
pub mod Consents
pub mod Device
pub mod Consent
pub mod ConstantTime
pub mod DeviceLogin
pub mod Endpoint
pub mod Exchange
pub mod Factors
pub mod Issue
pub mod Lifetimes
pub mod Machine
pub mod Refresh
use janux.Common.{
  Bool, List, Option, Text, false, if◌then◌else◌, is_empty, ltb, negsuc, none, pos, some, ℕ, ℤ, ◌/◌,
}
use janux.Members.{user_by_id}
use janux.Policy.{JwtData}
use janux.Tenant.{Result, User, Tenant, err, ok}

-- A registered client, without the columns for listing. `client_secret_hash` and the hash before the
-- last rotation are the stored encodings.
pub record OAuth2Client : Type 0 where
  pub id : Text
  pub uuid : Text
  pub client_secret_hash : Text
  pub grant_types : Text
  pub response_types : Text
  pub token_endpoint_auth_method : Text
  pub scope : Text
  pub domain_id : Text
  pub client_prev_secret_hash : Option Text
  pub secret_grace_until : Option ℕ
  pub active : Bool
  pub aud_is_domain : Bool

-- A consent grant. The rows of a table stand with the latest first.
pub record AuthGrant : Type 0 where
  pub jti : Text
  pub client_id : Text
  pub user_id : Text
  pub scope : Text
  pub code_hash : Text
  pub expires_at : ℕ
  pub revoked : Bool

-- The error codes of the token endpoint.
pub data TokenError : Type 0 where
  invalid_request invalid_client invalid_grant invalid_scope unauthorized_client
        unsupported_grant_type server_error authorization_pending slow_down access_denied
        expired_token :
      TokenError

pub record OidcRefreshTokenData : Type 0 where
  pub typ : Text
  pub scope : Text
  pub client_id : Text
  pub mfa : List Text
  pub family : Text
  pub family_created_at : ℕ

pub record OidcAccessTokenData : Type 0 where
  pub scope : Text
  pub jti : Text
  pub client_id : Text

-- What the provider signs: the claims of the four kinds of its tokens.
pub data TokenData : Type 0 where
  access_data : OidcAccessTokenData → TokenData
  id_data : TokenData
  refresh_data : OidcRefreshTokenData → TokenData
  machine_data : JwtData → TokenData

-- The arguments of `jwt_authenticate`: the claims, the minutes the token lives and JwtOidcParams.
pub record Signing : Type 0 where
  pub issuer : Text
  pub sub : Text
  pub payload : TokenData
  pub minutes : ℕ
  pub client_id : Text
  pub nonce : Option Text
  pub amr : Option (List Text)
  pub acr : Option Text
  pub access_token : Option Text
  pub auth_time : Option ℕ

pub record TokenResponse : Type 0 where
  pub access_token : Text
  pub expires_in : ℕ
  pub scope : Option Text
  pub id_token : Option Text
  pub refresh_token : Option Text

pub data TokenReply : Type 0 where
  issued : TokenResponse → TokenReply
  refused : TokenError → TokenReply

-- An entry of the cache of access tokens.
pub record AccessEntry : Type 0 where
  pub iss : Text
  pub client_id : Text
  pub user_id : Text
  pub scope : Text
  pub jti : Text
  pub nonce : Option Text
  pub amr : Option (List Text)
  pub acr : Option Text
  pub iat : ℕ
  pub exp : ℕ

abbrev pub aud_from_client : OAuth2Client → Text → Text
aud_from_client client domain = if client.aud_is_domain then domain else client.id

-- `clamped_token_lifetime_minutes` of src/utils.rs.
unfoldable pub clamped_token_lifetime_minutes : Option ℤ → ℕ → ℕ
clamped_token_lifetime_minutes none max_minutes = max_minutes
clamped_token_lifetime_minutes (some (negsuc _)) max_minutes = 1
clamped_token_lifetime_minutes (some (pos sec)) max_minutes =
    let minutes = sec / 60 in
    if ltb minutes 1 then 1 else if ltb max_minutes minutes then max_minutes else minutes

abbrev pub user_is_active : Result User → Bool
user_is_active (err _) = false
user_is_active (ok u) = u.active

-- Whether the user of a token still exists and is active. Parsing an identifier is a parameter.
unfoldable pub require_active_user : (Text → Option Text) → Tenant → Text → Bool
unfolding user_by_id
require_active_user parse_uuid t user_id = elim (parse_uuid user_id) [
  | none ↦ false
  | some id ↦ user_is_active (user_by_id t id)
]

-- A text that the response leaves out when it is empty.
abbrev pub non_empty : Text → Option Text
non_empty s = if is_empty s then none else some s
