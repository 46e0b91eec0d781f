-- ===== src/Tests/Clients.antt =====
-- Runs of the theorems on the clients of the OpenID Connect provider, on the data that the other
-- runs on the provider share.
use janux.Common.{
  Bool, In, List, Option, Text, [], all, arith, chars, contains, false, if◌then◌else◌, is_empty,
  join, none, pos, refl, some, text_eq, true, ℕ, ◌&&◌, ◌*◌, ◌+◌, ◌<◌, ◌^◌, ◌↔◌, ◌∷◌, ◌≡◌, ◌≤◌, ◌⊎◌,
}
use janux.Oidc.Clients.{
  authenticate_client, oauth2client_get, check_method, verify_post, get_scope,
  verify_secret_with_grace,
}
use janux.Oidc.Machine.{
  handle_client_credentials, effective_scopes, mint_machine, roles_for_machine_scopes, take_scopes,
  machine_scopes, machine_signing, client_credentials_token_lifetime_minutes,
}
use janux.Oidc.{OAuth2Client, TokenResponse, clamped_token_lifetime_minutes}
use janux.Oidc.Codes.{Services, Call, RefreshClaim}
use janux.Oidc.Clients.Authentic.{Proved, authenticate_client-authentic}
use janux.Oidc.Scopes.{
  validate_requested_scope_iff, known_scopes, Scope, validate_requested_scope, split_whitespace,
}
use janux.Oidc.ConstantTime.{constant_time_eq, constant_time_eq-equal}
use janux.Oidc.Lifetimes.{clamped_token_lifetime_minutes-shortens}
use janux.Oidc.Machine.Confined.{machine-confined}

abbrev pub app : OAuth2Client
app = record {
  id = chars "app";
  uuid = chars "m1";
  client_secret_hash = chars "s3";
  grant_types = chars "authorization_code refresh_token client_credentials";
  response_types = chars "code";
  token_endpoint_auth_method = chars "client_secret_post";
  scope = chars "openid offline_access scim";
  domain_id = chars "a.io";
  client_prev_secret_hash = none;
  secret_grace_until = none;
  active = true;
  aud_is_domain = true;
}

abbrev pub verify : Text → Text → Option Bool
verify stored attempted = some (text_eq stored attempted)

authenticate_client-authentic_example :
    In app (app ∷ [])
    × (app.id ≡ chars "app")
    × (app.active ≡ true)
    × ((text_eq app.token_endpoint_auth_method (chars "none") ≡ true)
        ⊎ Proved verify some some (some (chars "s3")) none 100 app)
unfolding authenticate_client oauth2client_get check_method verify_post verify_secret_with_grace
authenticate_client-authentic_example =
    authenticate_client-authentic verify some some (some (chars "s3")) none 100 (app ∷ [])
      (chars "app") app refl

validate_requested_scope_iff_example :
    (validate_requested_scope (chars "openid email") (chars "openid" ∷ chars "email" ∷ []) ≡ none)
    ↔ ((s : Text)
        → Scope s (chars "openid email")
        → In s known_scopes × In s (chars "openid" ∷ chars "email" ∷ []))
validate_requested_scope_iff_example =
    validate_requested_scope_iff (chars "openid email") (chars "openid" ∷ chars "email" ∷ [])

constant_time_eq-equal_example :
    constant_time_eq (chars "abc") (chars "abd") ≡ text_eq (chars "abc") (chars "abd")
constant_time_eq-equal_example =
    constant_time_eq-equal (chars "abc") (chars "abd")
      (omega arith, (omega arith, (omega arith, tt)))
      (omega arith, (omega arith, (omega arith, tt)))

clamped_token_lifetime_minutes-shortens_example :
    (1 ≤ clamped_token_lifetime_minutes (some (pos 330)) 60)
    × (clamped_token_lifetime_minutes (some (pos 330)) 60 ≤ 60)
    × (clamped_token_lifetime_minutes (some (pos 330)) 60 * 60 ≤ 330)
    × ((clamped_token_lifetime_minutes (some (pos 330)) 60 ≡ 60)
        ⊎ (330 < clamped_token_lifetime_minutes (some (pos 330)) 60 * 60 + 60))
clamped_token_lifetime_minutes-shortens_example =
    clamped_token_lifetime_minutes-shortens 60 330 (omega arith) (omega arith)

abbrev pub refresh_claims : RefreshClaim
refresh_claims = record {
  iss = chars "iss";
  sub = chars "u1";
  exp = 5000;
  auth_time = some 90;
  payload = record {
    typ = chars "refresh";
    scope = chars "openid offline_access";
    client_id = chars "app";
    mfa = chars "totp" ∷ [];
    family = chars "j1";
    family_created_at = 110;
  };
}

abbrev pub claim_of : Text → ℕ → Option RefreshClaim
claim_of rt now = if text_eq rt (chars "RT") then some refresh_claims else none

abbrev pub services : Services
services = record {
  digest = λ t. b'#' ∷ t;
  latest = 10 ^ 20;
  parse_uuid = some;
  sign = λ claims. some (chars "T");
  decode_refresh = claim_of;
  code_hash = λ t. b'h' ∷ t;
  s256 = λ t. chars "ver";
}

abbrev pub call_at : ℕ → Call
call_at now = record {
  now = now;
  issuer = chars "iss";
  domain = chars "a.io";
  has_key = true;
  revoke_fails = false;
  poison_fails = false;
}

abbrev machine_reply : TokenResponse
machine_reply = record {
  access_token = chars "T";
  expires_in = 129600 * 60;
  scope = some (join b' ' (chars "scim" ∷ []));
  id_token = none;
  refresh_token = none;
}

machine-confined_example :
    (roles : List Text) × (minutes : ℕ) × (services.sign
        (machine_signing (call_at 100) app roles minutes)
      ≡ some machine_reply.access_token)
    × (text_eq app.token_endpoint_auth_method (chars "none") ≡ false)
    × (minutes ≤ client_credentials_token_lifetime_minutes)
    × (is_empty roles ≡ false)
    × (all (λ role. contains role (get_scope app) && contains role machine_scopes) roles ≡ true)
unfolding handle_client_credentials effective_scopes mint_machine get_scope roles_for_machine_scopes
    split_whitespace take_scopes machine_scopes clamped_token_lifetime_minutes
machine-confined_example = machine-confined services (call_at 100) app none none machine_reply refl
