-- ===== src/Oidc/Consent.antt =====
-- src/oidc.rs: what the authorization endpoint does once a request is checked, and the two calls that
-- take a parked request up again.
pub mod Bound
pub mod Admitted
pub mod Codes
use janux.Common.{
  Bool, List, Option, Text, chars, contains, false, if◌then◌else◌, is_empty, lookup, map, none, not,
  some, text_eq, true, ℕ, ◌&&◌,
}
use janux.Oidc.Clients.{oauth2client_get, or_empty}
use janux.Oidc.Scopes.{scopes_cover, scope_label, split_whitespace}
use janux.Oidc.Consents.{auth_grant_revoke_for, auth_grant_find}
use janux.Oidc.Device.{DeviceCodes, user_code_key, device_key}
use janux.Ephem.{get_one_shot, Entries}
use janux.Oidc.{OAuth2Client, AuthGrant}
use janux.Oidc.Codes.{Services, Flow, Call, CodeRequest, issue_authorization_code}
use janux.Oidc.Authorize.{
  PendingEntry, Session, AuthorizeRequest, AuthorizeError, invalid_client, server_error,
  login_required, consent_required, access_denied, Hop, error_page, callback_error, callback_code,
  to_login, to_consent, no_session, invalid_state, Authorizing, Draws, Checked, Checking,
  rejected_with, checked, store_auth_pending, pending_user_matches, check_request, usable_session,
  parked_pkce, prompts, pending_key, session_time,
}
use janux.Oidc.DeviceLogin.{GrantFaults}

-- The entry that is parked at a stage, for the user of a session or for nobody.
abbrev pub parked_entry : AuthorizeRequest → Checked → Text → Option Text → ℕ → PendingEntry
parked_entry r k stage park_user now = record {
  client_id = k.client_id;
  callback_uri = k.callback_uri;
  scope = k.scope;
  state = r.state;
  nonce = r.nonce;
  code_challenge = k.challenge;
  stage = stage;
  park_user = park_user;
  created_at = now;
}

abbrev pub parked_hop : Authorizing → Entries PendingEntry × Bool → Hop → Authorizing × Hop
parked_hop a (pending, true) hop = (record a { pending = pending }, hop)
parked_hop a (pending, false) hop = (record a { pending = pending }, error_page server_error)

abbrev pub covers : Option AuthGrant → Text → Bool
covers none scope = false
covers (some grant) scope = scopes_cover grant.scope scope

abbrev pub issued_hop : Authorizing → Flow × Option Text → Text → Authorizing × Hop
issued_hop a (flow, none) callback_uri = (record a { flow = flow }, error_page server_error)
issued_hop a (flow, some code) callback_uri =
    (record a { flow = flow }, callback_code callback_uri code)

module _ (s : Services) (faults : GrantFaults) (draws : Draws) (now : ℕ) where
  unfoldable pub issue_for :
      Authorizing → Session → Text → Text → Text → Option Text → Option Text → Authorizing × Hop
  unfolding issue_authorization_code
  issue_for a session client_id callback_uri scope nonce challenge =
      issued_hop a
        (issue_authorization_code s faults.create_fails a.flow
          (record {
            client_id = client_id;
            callback_uri = callback_uri;
            user_id = session.user;
            scope = scope;
            nonce = nonce;
            pkce = parked_pkce challenge;
            mfa = session.mfa;
            auth_time = session_time session now;
          })
          draws.jti draws.codes now)
        callback_uri

  -- With a session: a live grant that covers the scope gives the code, unless consent is asked for.
  unfoldable pub authorize_session :
      Authorizing → AuthorizeRequest → Checked → Session → Authorizing × Hop
  unfolding auth_grant_find store_auth_pending issue_for
  authorize_session a r k session =
      if not (contains (chars "consent") (prompts r.prompt))
        && covers (auth_grant_find a.flow.grants session.user k.client_id) k.scope
      then issue_for a session k.client_id k.callback_uri k.scope r.nonce k.challenge
      else if contains (chars "none") (prompts r.prompt)
      then (a, callback_error k.callback_uri consent_required)
      else parked_hop a
          (store_auth_pending a.pending draws.csrf_state
            (parked_entry r k (chars "consent") (some session.user) now))
          (to_consent draws.csrf_state)

  unfoldable pub authorize_anonymous : Authorizing → AuthorizeRequest → Checked → Authorizing × Hop
  unfolding store_auth_pending
  authorize_anonymous a r k =
      if contains (chars "none") (prompts r.prompt)
      then (a, callback_error k.callback_uri login_required)
      else parked_hop a
          (store_auth_pending a.pending draws.csrf_state
            (parked_entry r k (chars "login") none now))
          (to_login draws.csrf_state)

  unfoldable pub authorize_checked :
      Authorizing → AuthorizeRequest → Option Session → Checking → Authorizing × Hop
  unfolding usable_session authorize_session authorize_anonymous
  authorize_checked a r session (rejected_with fault) = (a, error_page fault)
  authorize_checked a r session (checked k) = elim (usable_session r session now) [
    | none ↦ authorize_anonymous a r k
    | some usable ↦ authorize_session a r k usable
  ]

  -- The client of a parked request is still registered with the domain of the request.
  abbrev pub client_at : List OAuth2Client → Text → Text → Bool
  client_at clients domain client_id = elim (oauth2client_get clients client_id) [
    | none ↦ false
    | some client ↦ text_eq client.domain_id domain
  ]

  -- The grant that covers the request, or the consent page.
  unfoldable pub resume_entry : Authorizing → PendingEntry → Session → Authorizing × Hop
  unfolding auth_grant_find store_auth_pending issue_for
  resume_entry a e session =
      if covers (auth_grant_find a.flow.grants session.user e.client_id) e.scope
      then issue_for a session e.client_id e.callback_uri e.scope e.nonce e.code_challenge
      else parked_hop a
          (store_auth_pending a.pending draws.csrf_state
            (record e { stage = chars "consent"; park_user = some session.user; created_at = now }))
          (to_consent draws.csrf_state)

  -- The consent: the user's grants for the client are replaced.
  unfoldable pub accept_entry : Authorizing → PendingEntry → Session → Authorizing × Hop
  unfolding auth_grant_revoke_for issue_for
  accept_entry a e session =
      if faults.revoke_fails
      then (a, error_page server_error)
      else (let grants = auth_grant_revoke_for a.flow.grants session.user e.client_id in
          issue_for (record a { flow = record a.flow { grants = grants } }) session e.client_id
            e.callback_uri e.scope e.nonce e.code_challenge)

module _ (s : Services) (faults : GrantFaults) (draws : Draws) (now : ℕ)
    (to_lowercase : Text → Text) (clients : List OAuth2Client) (uris : List (Text × Text))
    (domain : Text) where
  unfoldable pub authorize_flow :
      Authorizing → AuthorizeRequest → Option Session → Authorizing × Hop
  unfolding check_request authorize_checked
  authorize_flow a r session =
      authorize_checked s faults draws now a r session
        (check_request to_lowercase clients uris domain r)

  -- From taking the parked request out on, where it was.
  unfoldable pub resume_parked : Authorizing → Session → Option PendingEntry → Authorizing × Hop
  unfolding pending_user_matches resume_entry
  resume_parked a session none = (a, invalid_state)
  resume_parked a session (some e) =
      if not (pending_user_matches e session.user)
      then (a, invalid_state)
      else if not (client_at s faults draws now clients domain e.client_id)
      then (a, error_page invalid_client)
      else resume_entry s faults draws now a e session

  -- `state` is the query parameter.
  unfoldable pub authorize_resume : Authorizing → Option Session → Option Text → Authorizing × Hop
  unfolding resume_parked get_one_shot
  authorize_resume a none state = (a, no_session)
  authorize_resume a (some session) state =
      if is_empty (or_empty state)
      then (a, invalid_state)
      else (let (pending, e) = get_one_shot a.pending (pending_key (or_empty state)) in
          resume_parked (record a { pending = pending }) session e)

  unfoldable pub submit_parked :
      Authorizing → Session → Text → Option PendingEntry → Authorizing × Hop
  unfolding pending_user_matches accept_entry
  submit_parked a session decision none = (a, invalid_state)
  submit_parked a session decision (some e) =
      if not (pending_user_matches e session.user)
      then (a, invalid_state)
      else if not (text_eq decision (chars "accept"))
      then (a, callback_error e.callback_uri access_denied)
      else if not (client_at s faults draws now clients domain e.client_id)
      then (a, error_page invalid_client)
      else accept_entry s faults draws now a e session

  unfoldable pub consent_submit : Authorizing → Option Session → Text → Text → Authorizing × Hop
  unfolding submit_parked get_one_shot
  consent_submit a none state decision = (a, no_session)
  consent_submit a (some session) state decision =
      let (pending, e) = get_one_shot a.pending (pending_key state) in
      submit_parked (record a { pending = pending }) session decision e

-- What the consent screen shows: the client and the scopes with their labels, to the session that
-- the parked request is for.
abbrev pub scope_details : Text → List (Text × Text)
scope_details scope = map (λ x. (x, scope_label x)) (split_whitespace scope)

abbrev pub shown : Option PendingEntry → Text → Option (Text × List (Text × Text))
shown none user = none
shown (some e) user =
    if pending_user_matches e user then some (e.client_id, scope_details e.scope) else none

unfoldable pub consent_info :
    Entries PendingEntry → Option Session → Option Text → Option (Text × List (Text × Text))
consent_info pending none state = none
consent_info pending (some session) state =
    if is_empty (or_empty state)
    then none
    else shown (lookup (pending_key (or_empty state)) pending) session.user

-- What the device page shows of a user code.
unfoldable pub device_login_info : DeviceCodes → Option Text → Option (Text × List (Text × Text))
device_login_info devices user_code =
    if is_empty (or_empty user_code)
    then none
    else (elim (lookup (user_code_key (or_empty user_code)) devices.by_user_code) [
      | none ↦ none
      | some device_code ↦ elim (lookup (device_key device_code) devices.codes) [
        | none ↦ none
        | some e ↦ some (e.client_id, scope_details e.scope)
      ]
    ])
