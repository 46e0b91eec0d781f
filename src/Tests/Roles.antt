-- ===== src/Tests/Roles.antt =====
-- Runs of the theorems on roles and their administration.
use janux.Common.{In, chars, none, pos, refl, ℤ, ◌<ℤ◌, ◌↔◌, ◌∷◌, ◌≡◌, ◌≤ℤ◌}
use janux.Tenant.{Role, UserRole, Tenant, jwt, ok, err, not_found, role, insert_role}
use janux.Roles.{
  builtin_level, level_of_names, effective_level, require_level, require_below, require_above_user,
  role_create,
}
use janux.Roles.Gate.{Held, require_level_iff}
use janux.Roles.Created.{custom_role, role_create_iff}
use janux.Roles.Above.{require_above_user_iff}
use janux.Members.{user, user_add_role}
use janux.Members.Steps.{role_created, granted, stop, step}
use janux.Members.Top.{Capped-all, Kept}
use janux.Members.Top.Reach.{Steps-Kept}
use janux.Tests.{office, ada, root_role, lower}

abbrev with_auditor : Tenant
with_auditor = record office { roles = custom_role (chars "auditor") (pos 30) ∷ office.roles }

abbrev bob_audits : Tenant
bob_audits = record with_auditor {
  user_roles = record { user_id = chars "u2"; role_id = chars "auditor" } ∷ office.user_roles;
}

creation :
    role_create office (jwt ada) (chars "auditor") (pos 30)
    ≡ ok (with_auditor, custom_role (chars "auditor") (pos 30))
unfolding role_create builtin_level role require_level effective_level level_of_names insert_role
creation = refl

grant : user_add_role lower with_auditor (jwt ada) (chars "Bob") (chars "auditor") ≡ ok bob_audits
unfolding user_add_role user role require_below require_level effective_level level_of_names
grant = refl

root_found : role office (chars "root") ≡ ok root_role
unfolding role
root_found = refl

Steps-Kept_example : Kept (chars "root") root_role office bob_audits
Steps-Kept_example =
    Steps-Kept lower office bob_audits (chars "root") root_role root_found
      (Capped-all (pos 100) office refl)
      (step office with_auditor bob_audits
        (role_created office with_auditor ada (chars "auditor") (pos 30)
          (custom_role (chars "auditor") (pos 30)) creation)
        (step with_auditor bob_audits bob_audits
          (granted with_auditor bob_audits ada (chars "Bob") (chars "auditor") grant)
          (stop bob_audits)))

role_create_iff_example :
    (role_create office (jwt ada) (chars "auditor") (pos 30)
      ≡ ok (with_auditor, custom_role (chars "auditor") (pos 30)))
    ↔ ((builtin_level (chars "auditor") ≡ none)
        × (role office (chars "auditor") ≡ err not_found)
        × (pos 0 ≤ℤ pos 30)
        × ((l : ℤ) × Held office ada.roles l × (pos 30 <ℤ l))
        × (custom_role (chars "auditor") (pos 30) ≡ custom_role (chars "auditor") (pos 30))
        × (with_auditor
            ≡ record office { roles = custom_role (chars "auditor") (pos 30) ∷ office.roles }))
role_create_iff_example =
    role_create_iff office with_auditor ada (chars "auditor") (pos 30)
      (custom_role (chars "auditor") (pos 30))

require_above_user_iff_example : (require_above_user office (jwt ada) (chars "u2") ≡ ok tt) ↔ (
    (l : ℤ) × Held office ada.roles l
    × ((m : UserRole) (r : Role)
        → In m office.user_roles
        → m.user_id ≡ chars "u2"
        → In r office.roles
        → r.id ≡ m.role_id
        → r.level <ℤ l))
require_above_user_iff_example = require_above_user_iff office ada (chars "u2")

require_level_iff_example :
    (require_level office (jwt ada) (pos 30) ≡ ok tt)
    ↔ ((l : ℤ) × Held office ada.roles l × (pos 30 <ℤ l))
require_level_iff_example = require_level_iff office ada (pos 30)
