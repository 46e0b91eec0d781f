-- ===== src/Oidc/Issue.antt =====
-- src/oidc.rs: signing the tokens of an answer. `sign` stands for `jwt_authenticate` with the key of
-- the domain, none where it fails; `has_key` says whether the domain has a key (`current_key`).
use janux.Common.{
  Bool, List, Option, Text, chars, false, if◌then◌else◌, is_empty, ltb, none, some, true, ℕ, ◌&&◌,
  ◌*◌, ◌++◌, ◌+◌, ◌||◌,
}
use janux.Ephem.{Entries, insert}
use janux.Oidc.Scopes.{has_scope}
use janux.Oidc.Factors.{amr_values, acr_value}
use janux.Oidc.{Signing, TokenResponse, AccessEntry, id_data, refresh_data, access_data}

abbrev pub oidc_refresh_family_lifetime : ℕ
oidc_refresh_family_lifetime = 30 * 24 * 3600

-- Unix time at which the family and its marker expire.
unfoldable pub refresh_family_end : ℕ → ℕ
refresh_family_end family_created_at = family_created_at + oidc_refresh_family_lifetime

unfoldable pub refresh_family_marker : Text → Text
refresh_family_marker family = chars "oidc_refresh_family:" ++ family

-- The user's part of a grant: who authenticated, how and when.
pub record Subject : Type 0 where
  pub user_id : Text
  pub mfa : List Text
  pub auth_time : ℕ

-- The claims of a refresh token, with the original authentication time.
unfoldable pub refresh_signing : Text → Text → Text → Subject → Text → ℕ → ℕ → Signing
refresh_signing issuer client_id scope who family family_created_at minutes = record {
  issuer = issuer;
  sub = who.user_id;
  payload = refresh_data (record {
    typ = chars "refresh";
    scope = scope;
    client_id = client_id;
    mfa = who.mfa;
    family = family;
    family_created_at = family_created_at;
  });
  minutes = minutes;
  client_id = client_id;
  nonce = none;
  amr = amr_values who.mfa;
  acr = acr_value who.mfa;
  access_token = none;
  auth_time = some who.auth_time;
}

-- The audience and the nonce differ between the grants.
unfoldable pub access_signing :
    Text → Text → Text → Text → Option Text → Text → Subject → ℕ → Signing
access_signing issuer aud client_id scope nonce jti who minutes = record {
  issuer = issuer;
  sub = who.user_id;
  payload = access_data (record { scope = scope; jti = jti; client_id = client_id });
  minutes = minutes;
  client_id = aud;
  nonce = nonce;
  amr = amr_values who.mfa;
  acr = acr_value who.mfa;
  access_token = none;
  auth_time = some who.auth_time;
}

unfoldable pub id_signing : Text → Text → Option Text → Subject → Text → Signing
id_signing issuer client_id nonce who access_token = record {
  issuer = issuer;
  sub = who.user_id;
  payload = id_data;
  minutes = 15;
  client_id = client_id;
  nonce = nonce;
  amr = amr_values who.mfa;
  acr = acr_value who.mfa;
  access_token = some access_token;
  auth_time = some who.auth_time;
}

unfoldable pub access_entry :
    Text → Text → Text → Text → Option Text → Subject → ℕ → ℕ → AccessEntry
access_entry issuer client_id scope jti nonce who now minutes = record {
  iss = issuer;
  client_id = client_id;
  user_id = who.user_id;
  scope = scope;
  jti = jti;
  nonce = nonce;
  amr = amr_values who.mfa;
  acr = acr_value who.mfa;
  iat = now;
  exp = now + minutes * 60;
}

abbrev pub access_key : Text → Text
access_key access_token = chars "token:access:" ++ access_token

-- Caching an access token; the result of the insert is dropped.
unfoldable pub remember : Entries AccessEntry → Text → AccessEntry → Entries AccessEntry
remember tokens access_token entry = (insert tokens (access_key access_token) entry).0

-- A token that a scope asks for: not asked for, signed, or the failure of signing it.
pub data Optional : Type 0 where
  unasked failed : Optional
  signed : Text → Optional

abbrev pub sign_if : Bool → Option Text → Optional
sign_if false token = unasked
sign_if true none = failed
sign_if true (some token) = signed token

abbrev pub optional_token : Optional → Option Text
optional_token (signed token) = some token
optional_token _ = none

abbrev pub is_failed : Optional → Bool
is_failed failed = true
is_failed _ = false

-- The texts that the answer of a grant is made from.
pub record Grant : Type 0 where
  pub issuer : Text
  pub aud : Text
  pub client_id : Text
  pub scope : Text
  pub nonce : Option Text
  pub access_nonce : Option Text
  pub jti : Text
  pub family : Text
  pub family_created_at : ℕ
  pub refresh_minutes : ℕ
  pub access_minutes : ℕ
  pub who : Subject
  pub now : ℕ

module _ (sign : Signing → Option Text) where
  unfoldable pub id_token_of : Grant → Text → Optional
  unfolding has_scope id_signing
  id_token_of g access_token =
      sign_if (has_scope (chars "openid") g.scope)
        (sign (id_signing g.issuer g.client_id g.nonce g.who access_token))

  -- A refresh token is left out when its lifetime would be zero minutes.
  unfoldable pub refresh_token_of : Grant → Optional
  unfolding has_scope refresh_signing
  refresh_token_of g =
      sign_if (has_scope (chars "offline_access") g.scope && ltb 0 g.refresh_minutes) (
        sign (
          refresh_signing g.issuer g.client_id g.scope g.who g.family g.family_created_at
            g.refresh_minutes))

  -- What the three grants of users sign, in order; none where one signature fails.
  unfoldable pub sign_tokens : Grant → Option TokenResponse
  unfolding access_signing id_token_of refresh_token_of
  sign_tokens g =
      let access = sign (
        access_signing g.issuer g.aud g.client_id g.scope g.access_nonce g.jti g.who
          g.access_minutes) in
      elim access [
        | none ↦ none
        | some access_token ↦
            let id_token = id_token_of g access_token in
            let refresh_token = refresh_token_of g in
            if is_failed id_token || is_failed refresh_token
            then none
            else some (record {
              access_token = access_token;
              expires_in = g.access_minutes * 60;
              scope = if is_empty g.scope then none else some g.scope;
              id_token = optional_token id_token;
              refresh_token = optional_token refresh_token;
            })
      ]
