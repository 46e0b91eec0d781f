-- ===== src/Tests/Signups.antt =====
-- Runs of the theorems on self-signup.
use janux.Common.{any, chars, false, refl, true, ◌∷◌, ◌≡◌, ◌⊎◌}
use janux.Tenant.{Role, Tenant, Error, ok, err, role, database_failed}
use janux.Roles.{require_below, require_level, effective_level}
use janux.Members.{
  user, valid_username, user_create, user_add_role, user_delete, signup_provision, SignupFaults,
}
use janux.Members.Signup.{clash, with_user, signup_provision-undone, signup_provision-done}
use janux.Roles.{require_above_user}
use janux.Tests.{office, lower}

abbrev healthy : SignupFaults
healthy = record { create_fails = false; grant_fails = false; delete_fails = false }

-- The database fails the grant of the role.
abbrev grant_fails_only : SignupFaults
grant_fails_only = record { create_fails = false; grant_fails = true; delete_fails = false }

-- It fails the rollback too.
abbrev both_fail : SignupFaults
both_fail = record { create_fails = false; grant_fails = true; delete_fails = true }

fails :
    signup_provision lower grant_fails_only office (chars "u3") (chars "Eve")
    ≡ (office, err database_failed)
unfolding signup_provision user_create valid_username user user_add_role role require_below
    require_level effective_level user_delete require_above_user
fails = refl

left_behind :
    signup_provision lower both_fail office (chars "u3") (chars "Eve")
    ≡ (with_user lower office (chars "u3") (chars "Eve"), err database_failed)
unfolding signup_provision user_create valid_username user user_add_role role require_below
    require_level effective_level user_delete require_above_user
left_behind = refl

signup_provision-undone_example :
    (with_user lower office (chars "u3") (chars "Eve") ≡ office)
    ⊎ ((both_fail.delete_fails ≡ true)
        × (with_user lower office (chars "u3") (chars "Eve")
            ≡ with_user lower office (chars "u3") (chars "Eve")))
signup_provision-undone_example =
    signup_provision-undone lower office (chars "u3") (chars "Eve") both_fail
      (with_user lower office (chars "u3") (chars "Eve")) database_failed refl left_behind

abbrev joined : Tenant
joined = record (with_user lower office (chars "u3") (chars "Eve")) {
  user_roles = record { user_id = chars "u3"; role_id = chars "guest" } ∷ office.user_roles;
}

succeeds : signup_provision lower healthy office (chars "u3") (chars "Eve") ≡ (joined, ok tt)
unfolding signup_provision user_create valid_username user user_add_role role require_below
    require_level effective_level user_delete require_above_user
succeeds = refl

signup_provision-done_example :
    (valid_username (chars "Eve") ≡ true)
    × (any (clash lower office (chars "u3") (chars "Eve")) office.users ≡ false)
    × ((joined ≡ with_user lower office (chars "u3") (chars "Eve"))
          × ((d : Error) × (role office (chars "guest") ≡ err d))
        ⊎ ((r : Role) × (role office (chars "guest") ≡ ok r)
            × (joined ≡ record (with_user lower office (chars "u3") (chars "Eve")) {
              user_roles = record { user_id = chars "u3"; role_id = r.id } ∷ office.user_roles;
            })))
signup_provision-done_example =
    signup_provision-done lower office (chars "u3") (chars "Eve") healthy joined succeeds
