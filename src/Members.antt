-- ===== src/Members.antt =====
-- src/user.rs: users, their life cycle, and granting and revoking roles. The change of case
-- (`str::to_lowercase`, over all of Unicode) is a parameter; so are the fresh ids.
pub mod Steps
pub mod Top
pub mod Signup
use janux.Common.{
  Bool, List, Option, Text, [], all, any, chars, false, find, if◌then◌else◌, is_empty, leb, length,
  none, not, retain, some, text_eq, true, ℕ, ◌&&◌, ◌==◌, ◌||◌, ◌∷◌,
}
use janux.Policy.{JwtData}
use janux.Tenant.{
  Role, User, UserRole, Tenant, Caller, bootstrap, jwt, Error, forbidden, not_found, duplicate,
  invalid_name, Result, ok, err, ◌>>=◌, ◌>>◌, or_err, role, database_failed,
}
use janux.Roles.{require_below, require_above_user}

abbrev pub is_ascii_alphanumeric : ℕ → Bool
is_ascii_alphanumeric c =
    (leb b'0' c && leb c b'9') || (leb b'A' c && leb c b'Z') || (leb b'a' c && leb c b'z')

abbrev pub username_char : ℕ → Bool
username_char c = is_ascii_alphanumeric c || c == b'.' || c == b'_' || c == b'@' || c == b'-'

unfoldable pub valid_username : Text → Bool
valid_username name = not (is_empty name) && leb (length name) 254 && all username_char name

-- `Vec::pop` on the rows that a query returns.
abbrev pub last_match : (User → Bool) → List User → Option User
last_match p [] = none
last_match p (u ∷ us) = elim (last_match p us) [
  | some v ↦ some v
  | none ↦ if p u then some u else none
]

unfoldable pub user_by_id : Tenant → Text → Result User
user_by_id t id = or_err (find (λ u. text_eq u.id id) t.users) not_found

-- `update_by_id` on one column, a function of the row.
unfoldable pub update_user : (User → User) → Text → List User → List User
update_user f id [] = []
update_user f id (u ∷ us) =
    if text_eq u.id id then f u ∷ update_user f id us else u ∷ update_user f id us

abbrev pub set_active : Tenant → Text → Bool → Tenant
set_active t id b = record t { users = update_user (λ u. record u { active = b }) id t.users }

-- `delete_by_id`, which takes the memberships of the user along.
abbrev pub delete_user_rows : Tenant → Text → Tenant
delete_user_rows t id = record t {
  users = retain (λ u. not (text_eq u.id id)) t.users;
  user_roles = retain (λ m. not (text_eq m.user_id id)) t.user_roles;
}

pub require_self : Caller → User → Result (Unit {0})
require_self bootstrap u = err forbidden
require_self (jwt claims) u = if text_eq claims.user u.id then ok tt else err forbidden

-- Which writes of a signup the database fails.
pub record SignupFaults : Type 0 where
  pub create_fails : Bool
  pub grant_fails : Bool
  pub delete_fails : Bool

-- A call whose checks come first and whose write may fail.
abbrev pub written {ℓ} : {A : Type ℓ} → Bool → Result A → Result A
written fails (err e) = err e
written true (ok x) = err database_failed
written false (ok x) = ok x

module _ (to_lowercase : Text → Text) where
  unfoldable pub user : Tenant → Text → Result User
  user t name = or_err (last_match (λ u. text_eq u.name (to_lowercase name)) t.users) not_found

  -- Names and ids are unique columns.
  unfoldable pub user_create : Tenant → Text → Text → Result (Tenant × User)
  user_create t fresh name =
      if not (valid_username name)
      then err invalid_name
      else if any (λ u. text_eq u.name (to_lowercase name) || text_eq u.id fresh) t.users
      then err duplicate
      else let u : User = record { id = fresh; name = to_lowercase name; active = true } in
        ok (record t { users = u ∷ t.users }, u)

  unfoldable pub user_activate : Tenant → Caller → Text → Result Tenant
  user_activate t caller name = do
    u ← user t name
    require_above_user t caller u.id
    ok (set_active t u.id true)

  unfoldable pub user_deactivate : Tenant → Caller → Text → Result Tenant
  user_deactivate t caller name = do
    u ← user t name
    require_above_user t caller u.id
    ok (set_active t u.id false)

  unfoldable pub user_delete : Tenant → Caller → Text → Result Tenant
  user_delete t caller name = do
    u ← user t name
    require_above_user t caller u.id
    ok (delete_user_rows t u.id)

  pub user_activate_self : Tenant → Caller → Text → Result Tenant
  user_activate_self t caller name = do
    u ← user t name
    require_self caller u
    ok (set_active t u.id true)

  pub user_deactivate_self : Tenant → Caller → Text → Result Tenant
  user_deactivate_self t caller name = do
    u ← user t name
    require_self caller u
    ok (set_active t u.id false)

  pub user_delete_self : Tenant → Caller → Text → Result Tenant
  user_delete_self t caller name = do
    u ← user t name
    require_self caller u
    ok (delete_user_rows t u.id)

  -- The uniqueness check and the write of `user_rename`.
  abbrev renamed : Tenant → User → Text → Result Tenant
  renamed t u folded =
      if text_eq folded u.name
      then ok t
      else if is_empty folded
      then err invalid_name
      else (elim (user t folded) [
        | ok _ ↦ err duplicate
        | err _ ↦
            ok (record t { users = update_user (λ v. record v { name = folded }) u.id t.users })
      ])

  -- The new name is checked first, then the gate, then its uniqueness.
  unfoldable pub user_rename : Tenant → Caller → Text → Text → Result (Tenant × User)
  user_rename t caller name new_name =
      if not (valid_username new_name) then err invalid_name else do
        u ← user t name
        require_above_user t caller u.id
        t' ← renamed t u (to_lowercase new_name)
        u' ← user_by_id t' u.id
        ok (t', u')

  unfoldable pub user_add_role : Tenant → Caller → Text → Text → Result Tenant
  user_add_role t caller user_name role_name = do
    u ← user t user_name
    r ← role t role_name
    require_below t caller r
    if any (λ m. text_eq m.user_id u.id && text_eq m.role_id r.id) t.user_roles
        then err duplicate
        else ok (record t { user_roles = record { user_id = u.id; role_id = r.id } ∷ t.user_roles })

  unfoldable pub user_del_role : Tenant → Caller → Text → Text → Result Tenant
  user_del_role t caller user_name role_name = do
    u ← user t user_name
    r ← role t role_name
    require_below t caller r
    ok (record t {
      user_roles =
          retain (λ m. not (text_eq m.user_id u.id && text_eq m.role_id r.id)) t.user_roles;
    })

  -- Self-signup: the user, then the builtin `guest` role; a failed grant removes the user again, and
  -- a failure of that is dropped. The tenant comes back beside the error too.
  unfoldable pub signup_provision : SignupFaults → Tenant → Text → Text → Tenant × Result (Unit {0})
  signup_provision faults t fresh name =
      elim (written faults.create_fails (user_create t fresh name)) [
        | err e ↦ (t, err e)
        | ok (t', u) ↦ elim (role t' (chars "guest")) [
          | err _ ↦ (t', ok tt)
          | ok _ ↦
              elim (written faults.grant_fails (user_add_role t' bootstrap name (chars "guest"))) [
                | ok t'' ↦ (t'', ok tt)
                | err e ↦ (
                  elim (written faults.delete_fails (user_delete t' bootstrap name)) [
                    | ok t'' ↦ t''
                    | err _ ↦ t'
                  ],
                  err e,
                )
              ]
        ]
      ]
