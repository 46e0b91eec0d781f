-- ===== src/Tests/Consents.antt =====
-- Runs of the theorems on consent and on the revocation endpoint.
use janux.Common.{
  List, Option, Text, [], arith, chars, false, lookup, none, refl, retain, some, text_eq, true, ℕ,
  ◌∷◌, ◌≡◌, ◌≢◌,
}
use janux.Oidc.Scopes.{split_whitespace, validate_requested_scope, known_scopes, scopes_cover}
use janux.Ephem.{get_one_shot}
use janux.Oidc.Clients.{
  authenticated, oauth2client_get, get_response_types, oauth2client_redirect_uris, get_scope,
}
use janux.Oidc.Consent.{
  authorize_flow, consent_submit, submit_parked, accept_entry, issue_for, authorize_checked,
  authorize_session,
}
use janux.Oidc.{AuthGrant}
use janux.Oidc.Codes.{Flow, issue_authorization_code, park_code, code_entry}
use janux.Oidc.Authorize.{
  PendingEntry, Session, AuthorizeRequest, Authorizing, Draws, Checked, check_request,
  pending_user_matches, choose_pkce, pending_key, usable_session,
}
use janux.Oidc.Consent.Bound.{StandsFor, Consented}
use janux.Oidc.Consent.Admitted.{Admitted}
use janux.Oidc.Consent.Codes.{authorize_flow-Consented, consent_submit-bound}
use janux.Oidc.Consents.{
  consent-replaced, live_for, auth_grant_create, auth_grant_revoke_for, revoke_each,
  auth_grant_revoke_jti, auth_grant_find,
}
use janux.Oidc.DeviceLogin.{GrantFaults}
use janux.Oidc.Revoke.{
  AnyClaim, answered, Introspected, revoke, revoke_kind, introspect, belongs_to,
}
use janux.Oidc.Revoke.Inactive.{revoke-inactive}
use janux.Revocation.{run}
use janux.Tests.{office, lower}
use janux.Tests.Clients.{app, services, call_at}

abbrev consent : AuthGrant
consent = record {
  jti = chars "j1";
  client_id = chars "app";
  user_id = chars "u1";
  scope = chars "openid";
  code_hash = chars "hc1";
  expires_at = 700;
  revoked = false;
}

abbrev renewed : AuthGrant
renewed = record consent { jti = chars "j2"; code_hash = chars "hc2"; expires_at = 800 }

consent-replaced_example :
    (g : AuthGrant) × (auth_grant_find
        (renewed ∷ record consent { revoked = true } ∷ [])
        (chars "u1")
        (chars "app")
      ≡ some g)
    × (retain
          (live_for (chars "u1") (chars "app"))
          (renewed ∷ record consent { revoked = true } ∷ [])
        ≡ g ∷ [])
    × (g.jti ≡ chars "j2")
    × (g.scope ≡ chars "openid")
unfolding auth_grant_create auth_grant_revoke_for revoke_each auth_grant_revoke_jti
consent-replaced_example =
    consent-replaced (consent ∷ []) (renewed ∷ record consent { revoked = true } ∷ []) (chars "j2")
      (chars "app") (chars "u1") (chars "openid") (chars "hc2") 800 refl

abbrev ada_session : Session
ada_session = record { user = chars "u1"; mfa = []; auth_time = some 90 }

abbrev parked_request : PendingEntry
parked_request = record {
  client_id = chars "app";
  callback_uri = chars "cb";
  scope = chars "openid";
  state = none;
  nonce = none;
  code_challenge = none;
  stage = chars "consent";
  park_user = some (chars "u1");
  created_at = 95;
}

abbrev start : Authorizing
start = record {
  flow = record {
    grants = consent ∷ [];
    auth_codes = [];
    pkce = [];
    tokens = [];
    store = record { rows = []; cache = [] };
  };
  pending = (chars "auth_pending:st", parked_request) ∷ [];
}

abbrev draws : Draws
draws = record { csrf_state = chars "s9"; jti = chars "j2"; codes = chars "c2" ∷ [] }

abbrev sound : GrantFaults
sound = record { revoke_fails = false; create_fails = false }

abbrev asked : AuthorizeRequest
asked = record {
  response_type = chars "code";
  client_id = chars "app";
  redirect_uri = some (chars "cb");
  state = none;
  scope = some (chars "openid");
  nonce = none;
  code_challenge = none;
  code_challenge_method = none;
  prompt = none;
  max_age = none;
}

abbrev uris : List (Text × Text)
uris = (chars "app", chars "cb") ∷ []

abbrev authorized : Authorizing
authorized =
    (authorize_flow services sound draws 100 lower (app ∷ []) uris (chars "a.io") start asked
      (some ada_session)).0

authorize_flow-Consented_example :
    (k : Checked) × (user : Session) × Admitted lower (app ∷ []) uris (chars "a.io") asked k
    × (usable_session asked (some ada_session) 100 ≡ some user)
    × (chars "cb" ≡ k.callback_uri)
    × Consented start user.user k.client_id k.scope
    × StandsFor authorized (chars "c2") user.user k.client_id k.scope
unfolding authorize_flow check_request oauth2client_get get_response_types split_whitespace
    oauth2client_redirect_uris choose_pkce get_scope validate_requested_scope known_scopes
    authorize_checked usable_session authorize_session auth_grant_find scopes_cover issue_for
    issue_authorization_code park_code code_entry auth_grant_create
authorize_flow-Consented_example =
    authorize_flow-Consented services sound draws 100 lower (app ∷ []) uris (chars "a.io") start
      authorized asked (some ada_session) (chars "cb") (chars "c2") refl

abbrev submitted : Authorizing
submitted =
    (consent_submit services sound draws 100 lower (app ∷ []) uris (chars "a.io") start
      (some ada_session) (chars "st") (chars "accept")).0

consent_submit-bound_example :
    (e : PendingEntry) × (lookup (pending_key (chars "st")) start.pending ≡ some e)
    × (pending_user_matches e ada_session.user ≡ true)
    × (text_eq (chars "accept") (chars "accept") ≡ true)
    × (chars "cb" ≡ e.callback_uri)
    × StandsFor submitted (chars "c2") ada_session.user e.client_id e.scope
    × (lookup (pending_key (chars "st")) submitted.pending ≡ none)
unfolding consent_submit get_one_shot submit_parked pending_user_matches oauth2client_get
    accept_entry auth_grant_revoke_for revoke_each auth_grant_revoke_jti issue_for
    issue_authorization_code park_code code_entry auth_grant_create
consent_submit-bound_example =
    consent_submit-bound services sound draws 100 lower (app ∷ []) uris (chars "a.io") start
      submitted ada_session (chars "st") (chars "accept") (chars "cb") (chars "c2") refl

abbrev any_claims : AnyClaim
any_claims = record {
  iss = chars "iss";
  sub = chars "u1";
  aud = chars "app";
  exp = 5000;
  iat = 100;
  payload = record {
    typ = none;
    client_id = some (chars "app");
    username = none;
    scope = some (chars "openid");
    family = none;
    family_created_at = none;
  };
}

abbrev decode_any : Text → ℕ → Option AnyClaim
decode_any token now = some any_claims

abbrev after_revocation : Flow
after_revocation =
    (revoke services office (call_at 110) decode_any start.flow (authenticated app) (chars "AT")).0

abbrev active_answer : Introspected
active_answer = record {
  client_id = chars "app";
  scope = none;
  sub = chars "u1";
  aud = chars "app";
  iss = chars "iss";
  exp = 5000;
  iat = 100;
}

revoke-inactive_example :
    introspect services office
      (call_at 120)
      decode_any
      after_revocation
      (authenticated app)
      (chars "AT")
    ≢ (start.flow, answered (some active_answer))
unfolding run revoke_kind belongs_to
revoke-inactive_example =
    revoke-inactive services office office (call_at 110) (call_at 120) decode_any start.flow
      after_revocation start.flow app app (chars "AT") any_claims [] active_answer refl refl refl
      refl (omega arith) refl refl refl tt (omega arith)
