-- ===== src/Tests/Codes.antt =====
-- Runs of the theorems on authorization codes and refresh tokens.
use janux.Common.{Text, [], arith, chars, false, lookup, none, refl, some, subst, ℕ, ◌∷◌, ◌≡◌, ◌≢◌}
use janux.Oidc.Scopes.{has_scope, split_whitespace}
use janux.Oidc.Issue.{
  sign_tokens, id_token_of, refresh_token_of, remember, access_entry, refresh_family_marker,
  refresh_family_end,
}
use janux.Members.{user_by_id}
use janux.Ephem.{get_one_shot}
use janux.Oidc.{
  AuthGrant, TokenResponse, issued, require_active_user, clamped_token_lifetime_minutes,
}
use janux.Oidc.Codes.{CodeEntry, Flow, TokenRequest, pkce_key}
use janux.Oidc.Exchange.{
  handle_auth_code, exchange_code, exchange_entry, entry_fault, exchange_checked, pkce_met,
  verifier_met, challenge_met, answer, exchange_grant,
}
use janux.Oidc.Exchange.Codes.{Exchange, exchange, exchanges, exchange-once}
use janux.Oidc.Exchange.Pkce.{exchange-verified}
use janux.Oidc.ConstantTime.{Bytes, constant_time_eq, xor_u8, or_u8}
use janux.Oidc.Refresh.{
  handle_refresh, refresh_presented, refresh_claim, reuse_detected, rotate_live, narrowed_scope,
  rotate_tokens, commit_rotation, rotation_grant, successor_minutes,
}
use janux.Oidc.Refresh.Rotated.{Rotated, handle_refresh-Rotated}
use janux.Oidc.Refresh.Once.{handle_refresh-once}
use janux.Revocation.{run, is_valid, read_through, invalid_raw}
use janux.Tests.{office}
use janux.Tests.Clients.{app, services, call_at, refresh_claims}

abbrev request : TokenRequest
request = record {
  grant_type = [];
  code = some (chars "c1");
  redirect_uri = some (chars "cb");
  client_id = chars "app";
  client_secret = none;
  code_verifier = some (chars "ver");
  scope = none;
  refresh_token = some (chars "RT");
  device_code = none;
  lifetime = none;
}

abbrev parked_code : CodeEntry
parked_code = record {
  client_id = chars "app";
  callback_uri = chars "cb";
  user_id = chars "u1";
  scope = chars "openid";
  nonce = none;
  code_challenge_method = some (chars "s256");
  mfa = [];
  auth_time = 90;
  jti = chars "j1";
  created_at = 100;
  expires_at = 700;
}

abbrev granted : AuthGrant
granted = record {
  jti = chars "j1";
  client_id = chars "app";
  user_id = chars "u1";
  scope = chars "openid";
  code_hash = chars "hc1";
  expires_at = 700;
  revoked = false;
}

abbrev before : Flow
before = record {
  grants = granted ∷ [];
  auth_codes = (chars "auth_code:c1", parked_code) ∷ [];
  pkce = (chars "pkce:c1", chars "ver") ∷ [];
  tokens = [];
  store = record { rows = []; cache = [] };
}

abbrev taken : Flow
taken = record before { auth_codes = []; pkce = [] }

-- The answer to the exchange of the code, and what it leaves.
abbrev reply : TokenResponse
reply = record {
  access_token = chars "T";
  expires_in = 3600;
  scope = some (chars "openid");
  id_token = some (chars "T");
  refresh_token = none;
}

abbrev the_exchange : ℕ → Exchange
the_exchange now = record {
  tenant = office;
  call = call_at now;
  registered = chars "cb" ∷ [];
  client = app;
  params = request;
}

abbrev exchanged : Flow
exchanged = (exchange services before (the_exchange 110)).0

exchange_issued : exchange services before (the_exchange 110) ≡ (exchanged, issued reply)
unfolding handle_auth_code exchange_code get_one_shot exchange_entry entry_fault require_active_user
    user_by_id exchange_checked pkce_met verifier_met challenge_met constant_time_eq xor_u8 or_u8
    answer sign_tokens id_token_of refresh_token_of has_scope split_whitespace exchange_grant
    clamped_token_lifetime_minutes remember access_entry
exchange_issued = refl

exchange-once_example :
    exchange services (exchanges services exchanged (the_exchange 111 ∷ [])) (the_exchange 112)
    ≢ (before, issued reply)
exchange-once_example =
    exchange-once services (the_exchange 110) (the_exchange 112) (the_exchange 111 ∷ []) before
      exchanged before reply reply (chars "c1") refl refl exchange_issued

ver-Bytes : Bytes (chars "ver")
ver-Bytes = (omega arith, (omega arith, (omega arith, tt)))

parked-Bytes : (c : Text) → lookup (pkce_key (chars "c1")) before.pkce ≡ some c → Bytes c
parked-Bytes c e = let same : chars "ver" ≡ c = cc in subst Bytes same ver-Bytes

exchange-verified_example :
    (c v : Text) × (lookup (pkce_key (chars "c1")) before.pkce ≡ some c)
    × ((the_exchange 110).params.code_verifier ≡ some v)
    × (services.s256 v ≡ c)
exchange-verified_example =
    exchange-verified services (the_exchange 110) before exchanged reply (chars "c1") (chars "s256")
      parked_code refl refl refl (λ v. ver-Bytes) parked-Bytes exchange_issued

-- The answer to the rotation of the refresh token.
abbrev rotated_reply : TokenResponse
rotated_reply = record {
  access_token = chars "T";
  expires_in = 3600;
  scope = some (chars "openid offline_access");
  id_token = some (chars "T");
  refresh_token = some (chars "T");
}

abbrev rotated : Flow
rotated = (handle_refresh services office (call_at 120) before app request (chars "j2")).0

rotation_issued :
    handle_refresh services office (call_at 120) before app request (chars "j2")
    ≡ (rotated, issued rotated_reply)
unfolding handle_refresh refresh_presented refresh_claim reuse_detected is_valid read_through
    refresh_family_marker refresh_family_end rotate_live require_active_user user_by_id
    narrowed_scope rotate_tokens commit_rotation sign_tokens id_token_of refresh_token_of has_scope
    split_whitespace rotation_grant successor_minutes clamped_token_lifetime_minutes remember
    access_entry invalid_raw
rotation_issued = refl

handle_refresh-Rotated_example :
    Rotated services office (call_at 120) app request (chars "j2") before rotated rotated_reply
handle_refresh-Rotated_example =
    handle_refresh-Rotated services office (call_at 120) app request (chars "j2") before rotated
      rotated_reply rotation_issued

handle_refresh-once_example :
    handle_refresh services office (call_at 130) rotated app request (chars "j3")
    ≢ (before, issued rotated_reply)
unfolding run
handle_refresh-once_example =
    handle_refresh-once services office office (call_at 120) (call_at 130) app app request request
      (chars "j2") (chars "j3") before rotated rotated before rotated_reply rotated_reply []
      (chars "RT") refresh_claims rotation_issued refl refl refl (omega arith) (omega arith) refl tt

-- A replay of the code after its exchange.
abbrev replayed : Flow
replayed = (handle_auth_code services office (call_at 140) taken (chars "cb" ∷ []) app request).0
