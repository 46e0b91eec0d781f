-- ===== src/Roles.antt =====
-- src/role.rs: the role catalogue, the level gate (rules R1 to R6), and creating and deleting roles.
-- src/user.rs: granting and revoking a role.
pub mod Gate
pub mod Created
pub mod Above
use janux.Common.{
  List, Option, Text, [], chars, false, i64_max, if◌then◌else◌, lookup, ltb_ℤ, none, not, pos,
  retain, some, text_eq, true, ℤ, ◌∷◌,
}
use janux.Policy.{Policy, JwtData}
use janux.Engine.{PolicyCache, RoleMap}
use janux.Tenant.{
  Role, User, UserRole, Tenant, Caller, bootstrap, jwt, Error, forbidden, conflict, not_found,
  negative_level, duplicate, Result, ok, err, ◌>>=◌, ◌>>◌, role, insert_role, roles_of_user,
}

abbrev pub builtin_roles : List (Text × ℤ)
builtin_roles =
    (chars "root", pos 100)
    ∷ (chars "admin", pos 80)
    ∷ (chars "scim", pos 60)
    ∷ (chars "user", pos 40)
    ∷ (chars "guest", pos 20)
    ∷ []

unfoldable pub builtin_level : Text → Option ℤ
builtin_level name = lookup name builtin_roles

abbrev pub max_ℤ : ℤ → ℤ → ℤ
max_ℤ a b = if ltb_ℤ a b then b else a

abbrev pub map_or_max : Option ℤ → ℤ → Option ℤ
map_or_max none level = some level
map_or_max (some m) level = some (max_ℤ m level)

abbrev pub absorb : Option ℤ → Result Role → Option ℤ
absorb best (ok r) = map_or_max best r.level
absorb best (err _) = best

-- The loop over the token's role names; a name that does not resolve adds nothing.
unfoldable pub level_of_names : Tenant → List Text → Option ℤ → Option ℤ
level_of_names t [] best = best
level_of_names t (name ∷ names) best = level_of_names t names (absorb best (role t name))

unfoldable pub effective_level : Tenant → Caller → Option ℤ
effective_level t bootstrap = some i64_max
effective_level t (jwt claims) = level_of_names t claims.roles none

abbrev pub above : Option ℤ → ℤ → Result (Unit {0})
above (some l) level = if ltb_ℤ level l then ok tt else err forbidden
above none level = err forbidden

unfoldable pub require_level : Tenant → Caller → ℤ → Result (Unit {0})
require_level t caller level = above (effective_level t caller) level

unfoldable pub require_below : Tenant → Caller → Role → Result (Unit {0})
unfolding require_level
require_below t caller r = require_level t caller r.level

-- The greatest level of a list of roles.
unfoldable pub max_level : List Role → Option ℤ
max_level [] = none
max_level (r ∷ rs) = elim (max_level rs) [ none ↦ some r.level | some m ↦ some (max_ℤ r.level m) ]

unfoldable pub user_effective_level : Tenant → Text → Option ℤ
user_effective_level t user = max_level (roles_of_user t.user_roles t.roles user)

abbrev pub outranks : Option ℤ → Option ℤ → Result (Unit {0})
outranks (some l) (some m) = if ltb_ℤ m l then ok tt else err forbidden
outranks (some l) none = ok tt
outranks none _ = err forbidden

unfoldable pub require_above_user : Tenant → Caller → Text → Result (Unit {0})
require_above_user t bootstrap user = ok tt
require_above_user t (jwt claims) user =
    outranks (effective_level t (jwt claims)) (user_effective_level t user)

-- `role_create` for a name that is not in the catalogue and not in the table.
abbrev pub create_custom : Tenant → Caller → Text → ℤ → Result (Tenant × Role)
create_custom t bootstrap name level =
    insert_role t (record { id = name; level = level; builtin = false })
create_custom t (jwt claims) name level = if ltb_ℤ level (pos 0) then err negative_level else do
  require_level t (jwt claims) level
  insert_role t (record { id = name; level = level; builtin = false })

abbrev pub create_builtin : Tenant → Caller → Text → ℤ → Result (Tenant × Role)
create_builtin t (jwt claims) name level = err forbidden
create_builtin t bootstrap name level = elim (role t name) [
  | ok existing ↦ ok (t, existing)
  | err _ ↦ insert_role t (record { id = name; level = level; builtin = true })
]

abbrev pub create_existing : Tenant → Caller → Role → Result (Tenant × Role)
create_existing t bootstrap existing = ok (t, existing)
create_existing t (jwt claims) existing = err conflict

unfoldable pub role_create : Tenant → Caller → Text → ℤ → Result (Tenant × Role)
role_create t caller name level = elim (builtin_level name) [
  | some catalog_level ↦ create_builtin t caller name catalog_level
  | none ↦ elim (role t name) [
    | ok existing ↦ create_existing t caller existing
    | err _ ↦ create_custom t caller name level
  ]
]

-- `DashMap::remove` on the role map of every domain.
unfoldable pub remove_role_rows : Text → PolicyCache → PolicyCache
remove_role_rows name [] = []
remove_role_rows name ((dom, m) ∷ rest) =
    (dom, retain (λ entry. not (text_eq entry.0 name)) m) ∷ remove_role_rows name rest

-- The rows of policies, of memberships and of the role itself.
abbrev pub drop_role : Tenant → Text → Tenant
drop_role t name = record t {
  policy_rows = retain (λ p. not (text_eq p.role_id name)) t.policy_rows;
  policies = remove_role_rows name t.policies;
  user_roles = retain (λ m. not (text_eq m.role_id name)) t.user_roles;
  roles = retain (λ r. not (text_eq r.id name)) t.roles;
}

unfoldable pub role_delete : Tenant → Caller → Text → Result Tenant
role_delete t caller name = do
  r ← role t name
  if r.builtin then err forbidden else do require_below t caller r; ok (drop_role t name)
