-- ===== src/Tests/Devices.antt =====
-- Runs of the theorems on device codes.
use janux.Common.{Text, [], arith, chars, length, none, refl, some, ◌∷◌, ◌≡◌, ◌≢◌, ◌≤◌}
use janux.Oidc.Device.{
  DeviceEntry, pending, Approval, deny_entry, poll_entry, approved_poll, foreign_client,
}
use janux.Oidc.Device.Ceremony.{Ceremony, Approver, denies, undecided}
use janux.Oidc.Device.Polls.{approval_of, Simulates}
use janux.Oidc.Device.Refines.{Step-refines}
use janux.Oidc.Device.Once.{Run, done, next, device-once, device-completes}
use janux.Ephem.{get_mut}

abbrev waiting : DeviceEntry
waiting = record {
  client_id = chars "app";
  scope = chars "openid";
  user_code = chars "BCDF-GHJK";
  status = pending;
  user_id = none;
  expires_at = 1900;
  last_polled_at = 0;
  interval = none;
  mfa = none;
  auth_time = none;
}

abbrev key : Text
key = chars "device:d1"

abbrev parked_device : Ceremony
parked_device = record { codes = (key, waiting) ∷ []; claims = [] }

abbrev ada_approves : Approver
ada_approves = record { user_id = chars "u1"; mfa = []; auth_time = 90 }

abbrev after_denial : Ceremony
after_denial = record parked_device { codes = (get_mut parked_device.codes key deny_entry).0 }

Step-refines_example : Simulates key (chars "openid") undecided none after_denial
Step-refines_example =
    Step-refines key (chars "openid") undecided parked_device after_denial none
      (waiting, refl, refl, refl, refl) denies

one_denial : Run key parked_device [] after_denial
one_denial = next [] denies done

device-once_example : length {A = Approval} [] ≤ 1
device-once_example =
    device-once key (chars "openid") waiting parked_device after_denial [] refl refl refl refl
      one_denial

device-completes_example :
    (c' : Ceremony) × Run key parked_device [] c'
    × ((get_mut c'.codes key (poll_entry waiting.client_id 200)).1
        ≡ some (approved_poll (approval_of (chars "openid") ada_approves)))
    × ((other : Text)
        → other ≢ waiting.client_id
        → (get_mut c'.codes key (poll_entry other 200)).1 ≡ some foreign_client)
device-completes_example =
    device-completes key waiting parked_device ada_approves 200 refl refl refl (omega arith) refl
