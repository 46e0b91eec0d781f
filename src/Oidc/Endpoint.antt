-- ===== src/Oidc/Endpoint.antt =====
-- src/oidc.rs: the token endpoint, with the exchange of a device code, and the two endpoints of the
-- device grant.
use janux.Common.{
  Bool, List, Option, Text, [], chars, contains, if◌then◌else◌, is_empty, none, not, some, text_eq,
  ◌/◌, ◌∷◌,
}
use janux.Oidc.Machine.{handle_client_credentials}
use janux.Oidc.Refresh.{handle_refresh}
use janux.Oidc.Exchange.{handle_auth_code, answer}
use janux.Oidc.Clients.{
  get_grant_types, oauth2client_redirect_uris, Authenticated, unauthenticated, authenticated,
  authenticate_client,
}
use janux.Oidc.{
  OAuth2Client, invalid_request, invalid_client, invalid_grant, unauthorized_client,
  unsupported_grant_type, authorization_pending, slow_down, access_denied, expired_token,
  TokenReply, refused, require_active_user, clamped_token_lifetime_minutes, aud_from_client,
}
use janux.Oidc.Codes.{Services, Flow, Call, TokenRequest}
use janux.Oidc.Device.{
  DeviceCodes, DeviceEntry, Poll, foreign_client, expired, slowed, still_pending, refused_by_user,
  invalid, approved_poll, Approval, poll_entry, device_key,
}
use janux.Oidc.Issue.{Grant, oidc_refresh_family_lifetime}
use janux.Tenant.{Tenant}
use janux.Ephem.{Entries, drop_entry, get_mut}

abbrev pub grant_type_device_code : Text
grant_type_device_code = chars "urn:ietf:params:oauth:grant-type:device_code"

unfoldable pub supported_grant_types : List Text
supported_grant_types =
    chars "authorization_code"
    ∷ chars "refresh_token"
    ∷ chars "client_credentials"
    ∷ grant_type_device_code
    ∷ []

-- What the provider keeps, with the device codes.
pub record Provider : Type 0 where
  pub flow : Flow
  pub devices : DeviceCodes

-- The fresh identifiers of a request.
pub record Fresh : Type 0 where
  pub jti : Text
  pub family : Text

module _ (s : Services) (t : Tenant) (q : Call) where
  -- `mint_token_response` for an approval.
  unfoldable pub device_grant : OAuth2Client → TokenRequest → Approval → Fresh → Grant
  unfolding clamped_token_lifetime_minutes
  device_grant client params a fresh = record {
    issuer = q.issuer;
    aud = aud_from_client client q.domain;
    client_id = client.id;
    scope = a.scope;
    nonce = none;
    access_nonce = none;
    jti = fresh.jti;
    family = fresh.family;
    family_created_at = q.now;
    refresh_minutes = oidc_refresh_family_lifetime / 60;
    access_minutes = clamped_token_lifetime_minutes params.lifetime 60;
    who = record { user_id = a.user_id; mfa = a.mfa; auth_time = a.auth_time };
    now = q.now;
  }

  abbrev pub with_flow : Provider → Flow × TokenReply → Provider × TokenReply
  with_flow p (flow, reply) = (record p { flow = flow }, reply)

  abbrev pub with_codes : Provider → Entries DeviceEntry → Provider
  with_codes p codes = record p { devices = record p.devices { codes = codes } }

  -- An approval that a poll has consumed.
  unfoldable pub exchange_approval :
      Provider → OAuth2Client → TokenRequest → Approval → Fresh → Provider × TokenReply
  unfolding require_active_user answer device_grant
  exchange_approval p client params a fresh =
      if is_empty a.user_id
      then (p, refused invalid_grant)
      else if not (require_active_user s.parse_uuid t a.user_id)
      then (p, refused invalid_grant)
      else with_flow p (answer s t q p.flow (device_grant client params a fresh))

  -- The match on the result of the poll.
  unfoldable pub polled :
      Provider → OAuth2Client → TokenRequest → Text → Fresh → Option Poll → Provider × TokenReply
  unfolding exchange_approval
  polled p client params key fresh none = (p, refused invalid_grant)
  polled p client params key fresh (some foreign_client) = (p, refused invalid_grant)
  polled p client params key fresh (some expired) = (p, refused expired_token)
  polled p client params key fresh (some slowed) = (p, refused slow_down)
  polled p client params key fresh (some still_pending) = (p, refused authorization_pending)
  polled p client params key fresh (some refused_by_user) = (p, refused access_denied)
  polled p client params key fresh (some invalid) = (p, refused invalid_grant)
  polled p client params key fresh (some (approved_poll a)) =
      exchange_approval (with_codes p (drop_entry key p.devices.codes)) client params a fresh

  unfoldable pub exchange_device_code :
      Provider → OAuth2Client → TokenRequest → Text → Fresh → Provider × TokenReply
  unfolding get_mut poll_entry polled
  exchange_device_code p client params device_code fresh =
      let key = device_key device_code in
      let (codes, poll) = get_mut p.devices.codes key (poll_entry client.id q.now) in
      polled (with_codes p codes) client params key fresh poll

  unfoldable pub handle_device_code :
      Provider → OAuth2Client → TokenRequest → Fresh → Provider × TokenReply
  unfolding exchange_device_code
  handle_device_code p client params fresh = elim params.device_code [
    | none ↦ (p, refused invalid_request)
    | some device_code ↦
        if is_empty device_code
        then (p, refused invalid_request)
        else exchange_device_code p client params device_code fresh
  ]

  -- The match on the grant type of a client that may use it.
  unfoldable pub grant_tokens :
      Provider → List Text → OAuth2Client → TokenRequest → Fresh → Provider × TokenReply
  unfolding handle_auth_code handle_refresh handle_device_code handle_client_credentials
  grant_tokens p registered client params fresh =
      if text_eq params.grant_type (chars "authorization_code")
      then with_flow p (handle_auth_code s t q p.flow registered client params)
      else if text_eq params.grant_type (chars "refresh_token")
      then with_flow p (handle_refresh s t q p.flow client params fresh.jti)
      else if text_eq params.grant_type grant_type_device_code
      then handle_device_code p client params fresh
      else if text_eq params.grant_type (chars "client_credentials")
      then (p, handle_client_credentials s q client params.scope params.lifetime)
      else (p, refused unsupported_grant_type)

  -- `token`, for a client that has authenticated or not.
  unfoldable pub token_for :
      Provider → List (Text × Text) → Authenticated → TokenRequest → Fresh → Provider × TokenReply
  unfolding grant_tokens get_grant_types oauth2client_redirect_uris
  token_for p uris (unauthenticated fault) params fresh = (p, refused invalid_client)
  token_for p uris (authenticated client) params fresh =
      if not (text_eq client.domain_id q.domain)
      then (p, refused invalid_client)
      else if not (contains params.grant_type supported_grant_types)
      then (p, refused unsupported_grant_type)
      else if not (contains params.grant_type (get_grant_types client))
      then (p, refused unauthorized_client)
      else grant_tokens p (oauth2client_redirect_uris uris client.id) client params fresh

module _ (verify_hash : Text → Text → Option Bool) (base64 percent : Text → Option Text)
    (s : Services) (t : Tenant) (q : Call) (clients : List OAuth2Client)
    (uris : List (Text × Text)) where
  -- `header` is the request's Authorization header.
  unfoldable pub token : Provider → Option Text → TokenRequest → Fresh → Provider × TokenReply
  unfolding authenticate_client token_for
  token p header params fresh =
      if is_empty params.grant_type
      then (p, refused invalid_request)
      else token_for s t q p uris
          (authenticate_client verify_hash base64 percent clients params.client_id
            params.client_secret header q.now)
          params fresh
