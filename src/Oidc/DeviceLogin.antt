-- ===== src/Oidc/DeviceLogin.antt =====
-- src/oidc.rs: the endpoints where a device asks for a code and where its user decides.
use janux.Common.{
  Bool, List, Option, Text, chars, contains, false, if◌then◌else◌, is_empty, lookup, ltb, none, not,
  some, text_eq, trim, true, ℕ, ◌&&◌, ◌*◌,
}
use janux.Revocation.{second}
use janux.Oidc.Scopes.{validate_requested_scope}
use janux.Oidc.Consents.{auth_grant_create, auth_grant_revoke_for}
use janux.Oidc.Clients.{
  oauth2client_get, get_grant_types, get_scope, Authenticated, unauthenticated, authenticated,
}
use janux.Oidc.{
  OAuth2Client, TokenError, invalid_client, invalid_scope, unauthorized_client, server_error,
  AuthGrant,
}
use janux.Oidc.Codes.{Services, Flow}
use janux.Oidc.Device.{
  DeviceCodes, DeviceEntry, DeviceStatus, approved, denied, Claimed, ready, already, rollback_claim,
  user_code_key, deny_entry, claim_entry, commit_approval, device_key, park_device, device_entry,
}
use janux.Oidc.Device.Ceremony.{Approver}
use janux.Oidc.Endpoint.{Provider, grant_type_device_code}
use janux.Ephem.{Entries, get_mut}

pub data DeviceReply : Type 0 where
  parked : Text → Text → DeviceReply
  not_parked : TokenError → DeviceReply

-- The scope that a device asks for, and the client's where it asks for none.
abbrev pub device_scope : OAuth2Client → Option Text → Text
device_scope client none = client.scope
device_scope client (some scope) = if is_empty (trim scope) then client.scope else scope

abbrev pub reply_parked : DeviceCodes × Bool → Text → Text → DeviceCodes × DeviceReply
reply_parked (devices, true) device_code user_code = (devices, parked device_code user_code)
reply_parked (devices, false) device_code user_code = (devices, not_parked server_error)

-- `device_authorization` for a client that has authenticated or not; the two codes are random.
unfoldable pub device_authorization :
    DeviceCodes → Authenticated → Option Text → Text → Text → ℕ → DeviceCodes × DeviceReply
unfolding validate_requested_scope park_device device_entry get_grant_types get_scope
device_authorization devices (unauthenticated fault) scope device_code user_code now =
    (devices, not_parked invalid_client)
device_authorization devices (authenticated client) scope device_code user_code now =
    if not (contains grant_type_device_code (get_grant_types client))
    then (devices, not_parked unauthorized_client)
    else (let wanted = device_scope client scope in
        elim (validate_requested_scope wanted (get_scope client)) [
          | some fault ↦ (devices, not_parked invalid_scope)
          | none ↦
              reply_parked
                (park_device devices device_code user_code
                  (device_entry client.id wanted user_code now))
                device_code user_code
        ])

pub data ApproveReply : Type 0 where
  bad_request no_session failing : ApproveReply
  recorded : DeviceStatus → ApproveReply
  already_processed : DeviceStatus → ApproveReply

-- Whether the two calls on the table of grants fail.
pub record GrantFaults : Type 0 where
  pub revoke_fails : Bool
  pub create_fails : Bool

module _ (s : Services) (clients : List OAuth2Client) (domain : Text) (faults : GrantFaults) where
  abbrev pub with_devices : Provider → Entries DeviceEntry → Provider
  with_devices p codes = record p { devices = record p.devices { codes = codes } }

  -- The client is registered with this provider.
  abbrev pub at_domain : Option OAuth2Client → Bool
  at_domain none = false
  at_domain (some client) = text_eq client.domain_id domain

  -- The rollback of the claim, then the refusal.
  unfoldable pub roll_back : Provider → Text → ApproveReply → Provider × ApproveReply
  unfolding get_mut rollback_claim
  roll_back p key reply = (with_devices p (get_mut p.devices.codes key rollback_claim).0, reply)

  -- The last step of an approval.
  unfoldable pub commit_device : Provider → Text → Approver → Provider × ApproveReply
  unfolding get_mut commit_approval
  commit_device p key a = (
    with_devices p (get_mut p.devices.codes key (commit_approval a.user_id a.mfa a.auth_time)).0,
    recorded approved,
  )

  abbrev pub created : Flow → Text → Text → Text → Text → Text → ℕ → Option (List AuthGrant)
  created f jti client_id user_id scope code_hash expires_at =
      if faults.create_fails
      then none
      else auth_grant_create f.grants jti client_id user_id scope code_hash expires_at

  -- The new grant of the consent, whose expiry must be a representable time.
  unfoldable pub record_consent :
      Provider → Text → Text → Approver → Text → Text → Text → ℕ → Provider × ApproveReply
  unfolding auth_grant_create commit_device roll_back
  record_consent p key device_code a client_id scope jti expires_at =
      if ltb s.latest (expires_at * second)
      then roll_back p key bad_request
      else (elim (created p.flow jti client_id a.user_id scope (s.code_hash device_code)
          expires_at) [
            | none ↦ roll_back p key failing
            | some grants ↦
                commit_device (record p { flow = record p.flow { grants = grants } }) key a
          ])

  -- What follows a claim that won.
  unfoldable pub approve_claimed :
      Provider → Text → Text → Approver → Text → Text → Text → ℕ → Provider × ApproveReply
  unfolding oauth2client_get auth_grant_revoke_for record_consent roll_back
  approve_claimed p key device_code a client_id scope jti expires_at =
      if not (at_domain (oauth2client_get clients client_id))
      then roll_back p key bad_request
      else if faults.revoke_fails
      then roll_back p key failing
      else (let grants = auth_grant_revoke_for p.flow.grants a.user_id client_id in
          record_consent (record p { flow = record p.flow { grants = grants } }) key device_code a
            client_id scope jti expires_at)

  unfoldable pub claimed_device :
      Provider → Text → Text → Approver → Text → Option Claimed → Provider × ApproveReply
  unfolding approve_claimed
  claimed_device p key device_code a jti none = (p, bad_request)
  claimed_device p key device_code a jti (some (already status)) = (p, already_processed status)
  claimed_device p key device_code a jti (some (ready client_id scope expires_at)) =
      approve_claimed p key device_code a client_id scope jti expires_at

  unfoldable pub approve_device : Provider → Text → Approver → Text → Provider × ApproveReply
  unfolding get_mut claim_entry claimed_device
  approve_device p device_code a jti =
      let key = device_key device_code in
      let (codes, claim) = get_mut p.devices.codes key claim_entry in
      claimed_device (with_devices p codes) key device_code a jti claim

  abbrev pub denied_device : Provider → Option DeviceStatus → Provider × ApproveReply
  denied_device p none = (p, bad_request)
  denied_device p (some denied) = (p, recorded denied)
  denied_device p (some status) = (p, already_processed status)

  unfoldable pub deny_device : Provider → Text → Provider × ApproveReply
  unfolding get_mut deny_entry
  deny_device p device_code =
      let (codes, status) = get_mut p.devices.codes (device_key device_code) deny_entry in
      denied_device (with_devices p codes) status

  abbrev pub decide_device : Provider → Text → Approver → Text → Text → Provider × ApproveReply
  decide_device p action a jti device_code =
      if text_eq action (chars "approve")
      then approve_device p device_code a jti
      else deny_device p device_code

  -- `device_login_approve`; the session is none where it does not validate.
  unfoldable pub device_login_approve :
      Provider → Text → Text → Option Approver → Text → Provider × ApproveReply
  unfolding approve_device deny_device
  device_login_approve p user_code action session jti =
      if is_empty user_code
      then (p, bad_request)
      else if not (text_eq action (chars "approve")) && not (text_eq action (chars "deny"))
      then (p, bad_request)
      else (elim session [
        | none ↦ (p, no_session)
        | some a ↦ elim (lookup (user_code_key user_code) p.devices.by_user_code) [
          | none ↦ (p, bad_request)
          | some device_code ↦ decide_device p action a jti device_code
        ]
      ])
