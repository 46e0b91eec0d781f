-- ===== src/Oidc/Authorize.antt =====
-- src/oidc.rs: the authorization endpoint, its resumption after a login and the consent screen. The
-- session is none where it does not validate; the fresh identifiers and random texts of a request
-- are arguments.
use janux.Common.{
  Bool, List, Option, Text, all, chars, contains, false, if◌then◌else◌, is_empty, leb, length,
  negsuc, none, not, pos, some, text_eq, trim, true, ℕ, ℤ, ◌&&◌, ◌++◌, ◌+◌, ◌==◌, ◌||◌,
}
use janux.Oidc.Refresh.{or_now}
use janux.Oidc.Clients.{
  oauth2client_get, oauth2client_redirect_uris, or_empty, get_scope, get_response_types,
}
use janux.Ephem.{Entries, insert, drop_entry}
use janux.Oidc.Scopes.{validate_requested_scope, split_whitespace}
use janux.Oidc.{OAuth2Client}
use janux.Oidc.Codes.{Flow}

pub record PendingEntry : Type 0 where
  pub client_id : Text
  pub callback_uri : Text
  pub scope : Text
  pub state : Option Text
  pub nonce : Option Text
  pub code_challenge : Option Text
  pub stage : Text
  pub park_user : Option Text
  pub created_at : ℕ

pub record Session : Type 0 where
  pub user : Text
  pub mfa : List Text
  pub auth_time : Option ℕ

pub record AuthorizeRequest : Type 0 where
  pub response_type : Text
  pub client_id : Text
  pub redirect_uri : Option Text
  pub state : Option Text
  pub scope : Option Text
  pub nonce : Option Text
  pub code_challenge : Option Text
  pub code_challenge_method : Option Text
  pub prompt : Option Text
  pub max_age : Option ℤ

pub data AuthorizeError : Type 0 where
  unsupported_response_type invalid_client unauthorized_client invalid_request invalid_redirect_uri
        invalid_scope server_error login_required consent_required access_denied :
      AuthorizeError

-- Where the browser goes next: the server's error page, the client's callback with an error or with a
-- code, the login or the consent page with the key of the parked request. `no_session` and
-- `invalid_state` are the refusals of the calls that need a session and a parked request.
pub data Hop : Type 0 where
  error_page : AuthorizeError → Hop
  callback_error : Text → AuthorizeError → Hop
  callback_code : Text → Text → Hop
  to_login to_consent : Text → Hop
  no_session invalid_state : Hop

pub record Authorizing : Type 0 where
  pub flow : Flow
  pub pending : Entries PendingEntry

-- The random texts and identifiers that a request may use.
pub record Draws : Type 0 where
  pub csrf_state : Text
  pub jti : Text
  pub codes : List Text

abbrev pub pending_key : Text → Text
pending_key csrf_state = chars "auth_pending:" ++ csrf_state

-- The key is removed first, so the insert does not refuse it.
unfoldable pub store_auth_pending :
    Entries PendingEntry → Text → PendingEntry → Entries PendingEntry × Bool
unfolding insert
store_auth_pending pending csrf_state entry =
    insert (drop_entry (pending_key csrf_state) pending) (pending_key csrf_state) entry

-- An entry that was parked with a session is for its user alone.
unfoldable pub pending_user_matches : PendingEntry → Text → Bool
pending_user_matches entry user = elim entry.park_user [
  | none ↦ true
  | some parked_user ↦ text_eq parked_user user
]

abbrev pub is_unreserved : ℕ → Bool
is_unreserved b =
    (leb b'A' b && leb b b'Z')
    || (leb b'a' b && leb b b'z')
    || (leb b'0' b && leb b b'9')
    || b == b'-'
    || b == b'.'
    || b == b'_'
    || b == b'~'

abbrev pub well_formed_challenge : Text → Bool
well_formed_challenge challenge =
    leb 43 (length challenge) && leb (length challenge) 128 && all is_unreserved challenge

pub data PkceChoice : Type 0 where
  no_pkce pkce_fault : PkceChoice
  s256_pkce : Text → PkceChoice

abbrev pub choose_challenge : Text → Text → PkceChoice
choose_challenge method challenge =
    if text_eq method (chars "s256")
    then (if well_formed_challenge challenge then s256_pkce challenge else pkce_fault)
    else pkce_fault

-- The challenge of a request: S256 alone, and required of a public client.
unfoldable pub choose_pkce : (Text → Text) → OAuth2Client → Option Text → Option Text → PkceChoice
choose_pkce to_lowercase client none method =
    if text_eq client.token_endpoint_auth_method (chars "none") then pkce_fault else no_pkce
choose_pkce to_lowercase client (some challenge) none = pkce_fault
choose_pkce to_lowercase client (some challenge) (some method) =
    choose_challenge (to_lowercase method) challenge

abbrev pub challenge_of : PkceChoice → Option Text
challenge_of (s256_pkce challenge) = some challenge
challenge_of _ = none

abbrev pub parked_pkce : Option Text → Option (Text × Text)
parked_pkce none = none
parked_pkce (some challenge) = some (chars "s256", challenge)

abbrev pub prompts : Option Text → List Text
prompts prompt = split_whitespace (or_empty prompt)

abbrev pub session_time : Session → ℕ → ℕ
session_time session now = or_now now session.auth_time

abbrev pub recent : Option ℕ → ℕ → ℕ → Bool
recent none max_age now = false
recent (some auth_time) max_age now = leb now (max_age + auth_time)

-- Whether the age of the session is within what the request allows; a negative age is no limit.
abbrev pub young_enough : Option ℤ → Session → ℕ → Bool
young_enough none session now = true
young_enough (some (negsuc _)) session now = true
young_enough (some (pos max_age)) session now = recent session.auth_time max_age now

-- The session that the request may use.
unfoldable pub usable_session : AuthorizeRequest → Option Session → ℕ → Option Session
usable_session r none now = none
usable_session r (some session) now =
    if contains (chars "login") (prompts r.prompt)
      || contains (chars "select_account") (prompts r.prompt)
    then none
    else if young_enough r.max_age session now
    then some session
    else none

abbrev pub wanted_scope : OAuth2Client → Option Text → Text
wanted_scope client none = client.scope
wanted_scope client (some scope) = if is_empty (trim scope) then client.scope else scope

-- A request that passed the checks, with what it asks for.
pub record Checked : Type 0 where
  pub client_id : Text
  pub callback_uri : Text
  pub scope : Text
  pub challenge : Option Text

pub data Checking : Type 0 where
  rejected_with : AuthorizeError → Checking
  checked : Checked → Checking

module _ (to_lowercase : Text → Text) (clients : List OAuth2Client) (uris : List (Text × Text))
    (domain : Text) where
  abbrev pub check_scope : AuthorizeRequest → OAuth2Client → Text → PkceChoice → Checking
  check_scope r client callback_uri choice =
      if not (text_eq client.domain_id domain)
      then rejected_with invalid_client
      else (elim (validate_requested_scope (wanted_scope client r.scope) (get_scope client)) [
        | some fault ↦ rejected_with invalid_scope
        | none ↦ checked (record {
          client_id = client.id;
          callback_uri = callback_uri;
          scope = wanted_scope client r.scope;
          challenge = challenge_of choice;
        })
      ])

  abbrev pub check_challenge : AuthorizeRequest → OAuth2Client → Text → PkceChoice → Checking
  check_challenge r client callback_uri pkce_fault = rejected_with invalid_request
  check_challenge r client callback_uri choice = check_scope r client callback_uri choice

  abbrev pub check_uri : AuthorizeRequest → OAuth2Client → Option Text → Checking
  check_uri r client none = rejected_with invalid_request
  check_uri r client (some callback_uri) =
      if not (contains callback_uri (oauth2client_redirect_uris uris r.client_id))
      then rejected_with invalid_redirect_uri
      else check_challenge r client callback_uri
          (choose_pkce to_lowercase client r.code_challenge r.code_challenge_method)

  -- The checks of `authorize_flow` up to the session.
  unfoldable pub check_request : AuthorizeRequest → Checking
  unfolding oauth2client_get
  check_request r =
      if not (text_eq r.response_type (chars "code"))
      then rejected_with unsupported_response_type
      else if is_empty r.client_id
      then rejected_with invalid_client
      else (elim (oauth2client_get clients r.client_id) [
        | none ↦ rejected_with invalid_client
        | some client ↦
            if not (contains r.response_type (get_response_types client))
            then rejected_with unauthorized_client
            else check_uri r client r.redirect_uri
      ])
