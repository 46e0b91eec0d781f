-- ===== src/Oidc/Device.antt =====
-- src/oidc.rs: the device authorization grant (RFC 8628). A request parks an entry under its device
-- code; the user's decision and the client's polls change it, each in one call of the cache.
pub mod Ceremony
pub mod Polls
pub mod Refines
pub mod Once
use janux.Common.{
  Bool, List, Option, Text, [], chars, false, if◌then◌else◌, ltb, none, not, some, text_eq, true, ℕ,
  ◌&&◌, ◌++◌, ◌+◌,
}
use janux.Ephem.{insert, Entries, drop_entry}

-- `null` is a user id that is not set.
pub data DeviceStatus : Type 0 where
  pending approving approved denied consumed : DeviceStatus

pub record DeviceEntry : Type 0 where
  pub client_id : Text
  pub scope : Text
  pub user_code : Text
  pub status : DeviceStatus
  pub user_id : Option Text
  pub expires_at : ℕ
  pub last_polled_at : ℕ
  pub interval : Option ℕ
  pub mfa : Option (List Text)
  pub auth_time : Option ℕ

pub record DeviceCodes : Type 0 where
  pub codes : Entries DeviceEntry
  pub by_user_code : Entries Text

abbrev pub device_key : Text → Text
device_key device_code = chars "device:" ++ device_code

abbrev pub user_code_key : Text → Text
user_code_key user_code = chars "user_code:" ++ user_code

-- What an approval hands to the poll that consumes it.
pub record Approval : Type 0 where
  pub user_id : Text
  pub scope : Text
  pub mfa : List Text
  pub auth_time : ℕ

pub data Poll : Type 0 where
  foreign_client expired slowed still_pending refused_by_user invalid : Poll
  approved_poll : Approval → Poll

abbrev pub or_default {ℓ} : {A : Type ℓ} → Option A → A → A
or_default none a = a
or_default (some b) a = b

abbrev pub device_lifetime_sec : ℕ
device_lifetime_sec = 1800

-- The entry that `device_authorization` parks.
unfoldable pub device_entry : Text → Text → Text → ℕ → DeviceEntry
device_entry client_id scope user_code now = record {
  client_id = client_id;
  scope = scope;
  user_code = user_code;
  status = pending;
  user_id = none;
  expires_at = now + device_lifetime_sec;
  last_polled_at = 0;
  interval = none;
  mfa = none;
  auth_time = none;
}

-- The two inserts of `device_authorization`: a code that is taken refuses, and the first insert is
-- taken back when the second one fails.
unfoldable pub park_device : DeviceCodes → Text → Text → DeviceEntry → DeviceCodes × Bool
unfolding insert
park_device store device_code user_code entry =
    let (codes, fresh) = insert store.codes (device_key device_code) entry in
    if not fresh
    then (store, false)
    else (let (by_user_code, unused) =
          insert store.by_user_code (user_code_key user_code) device_code in
        if unused
        then (record { codes = codes; by_user_code = by_user_code }, true)
        else (record store { codes = drop_entry (device_key device_code) codes }, false))

-- The call of a poll on the entry, after the client, the expiry and the interval were checked.
abbrev pub poll_status : DeviceStatus → ℕ → DeviceEntry → DeviceEntry × Poll
poll_status pending now entry = (entry, still_pending)
poll_status approving now entry = (entry, still_pending)
poll_status denied now entry = (entry, refused_by_user)
poll_status consumed now entry = (entry, invalid)
poll_status approved now entry = (
  record entry { status = consumed },
  approved_poll (record {
    user_id = or_default entry.user_id [];
    scope = entry.scope;
    mfa = or_default entry.mfa [];
    auth_time = or_default entry.auth_time now;
  }),
)

-- Seconds of the two clock readings are compared as integers, so a clock that went back is too fast.
abbrev pub too_fast : ℕ → DeviceEntry → Bool
too_fast now entry =
    ltb 0 entry.last_polled_at && ltb now (entry.last_polled_at + or_default entry.interval 5)

unfoldable pub poll_entry : Text → ℕ → DeviceEntry → DeviceEntry × Poll
poll_entry client now entry =
    if not (text_eq entry.client_id client)
    then (entry, foreign_client)
    else if ltb entry.expires_at now
    then (entry, expired)
    else if too_fast now entry
    then (
      record entry { last_polled_at = now; interval = some (or_default entry.interval 5 + 5) },
      slowed,
    )
    else poll_status entry.status now (record entry { last_polled_at = now })

pub data Claimed : Type 0 where
  already : DeviceStatus → Claimed
  ready : Text → Text → ℕ → Claimed

abbrev pub claim_status : DeviceStatus → DeviceEntry → DeviceEntry × Claimed
claim_status pending entry =
    (record entry { status = approving }, ready entry.client_id entry.scope entry.expires_at)
claim_status status entry = (entry, already status)

-- The first call of an approval: pending to approving.
unfoldable pub claim_entry : DeviceEntry → DeviceEntry × Claimed
claim_entry entry = claim_status entry.status entry

-- The call after a failure of the table.
unfoldable pub rollback_claim : DeviceEntry → DeviceEntry × Unit {0}
rollback_claim entry = (record entry { status = pending }, tt)

-- The last call of an approval.
unfoldable pub commit_approval : Text → List Text → ℕ → DeviceEntry → DeviceEntry × Unit {0}
commit_approval user mfa auth_time entry = (
  record entry {
    status = approved;
    user_id = some user;
    mfa = some mfa;
    auth_time = some auth_time;
  },
  tt,
)

abbrev pub deny_status : DeviceStatus → DeviceEntry → DeviceEntry × DeviceStatus
deny_status pending entry = (record entry { status = denied; user_id = none }, denied)
deny_status status entry = (entry, status)

unfoldable pub deny_entry : DeviceEntry → DeviceEntry × DeviceStatus
deny_entry entry = deny_status entry.status entry
