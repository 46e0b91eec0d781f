-- ===== src/Members/Steps.antt =====
-- The administration of roles and users by tokens (src/role.rs, src/user.rs) as a step relation,
-- and what each step that succeeds has checked and changed. The calls of the seed caller and the
-- calls by which users change their own account are other steps.
use janux.Common.{
  Bool, Text, any, ap, arith, false, if◌then◌else◌, inl, inr, is_empty, not, retain, subst, sym,
  text_eq, true, ℤ, ◌&&◌, ◌||◌, ◌∙◌, ◌∷◌, ◌≡◌, ◌⊎◌,
}
use janux.Policy.{JwtData}
use janux.Tenant.{
  Role, User, Tenant, Caller, jwt, duplicate, invalid_name, Result, ok, err, guarded, >>=-eq-ok,
  ok-injective, or_refused_iff, role,
}
use janux.Roles.{require_below, require_above_user, role_create, role_delete}
use janux.Members.{
  user, user_by_id, valid_username, user_create, user_activate, user_deactivate, user_delete,
  user_rename, user_add_role, user_del_role, set_active, delete_user_rows, update_user, renamed,
}

either_write :
    (same blank : Bool) (x : Result User) (a b t' : Tenant)
    → if◌then◌else◌ {A = Result Tenant} same (ok a) (
        if◌then◌else◌ {A = Result Tenant} blank
          (err invalid_name)
          (elim x [ ok _ ↦ err duplicate | err _ ↦ ok b ]))
      ≡ ok t'
    → (t' ≡ a) ⊎ (t' ≡ b)
either_write true blank x a b t' h = inl (sym (ok-injective h))
either_write false true x a b t' h = cc
either_write false false (ok _) a b t' h = cc
either_write false false (err _) a b t' h = inr (sym (ok-injective h))

module _ (low : Text → Text) where
  pub data Step : Tenant → Tenant → Type 0 where
    role_created :
        (t t' : Tenant) (claims : JwtData) (name : Text) (level : ℤ) (r : Role)
        → role_create t (jwt claims) name level ≡ ok (t', r)
        → Step t t'
    role_deleted :
        (t t' : Tenant) (claims : JwtData) (name : Text)
        → role_delete t (jwt claims) name ≡ ok t'
        → Step t t'
    granted :
        (t t' : Tenant) (claims : JwtData) (name role_name : Text)
        → user_add_role low t (jwt claims) name role_name ≡ ok t'
        → Step t t'
    revoked :
        (t t' : Tenant) (claims : JwtData) (name role_name : Text)
        → user_del_role low t (jwt claims) name role_name ≡ ok t'
        → Step t t'
    user_created :
        (t t' : Tenant) (fresh name : Text) (u : User)
        → user_create low t fresh name ≡ ok (t', u)
        → Step t t'
    activated :
        (t t' : Tenant) (claims : JwtData) (name : Text)
        → user_activate low t (jwt claims) name ≡ ok t'
        → Step t t'
    deactivated :
        (t t' : Tenant) (claims : JwtData) (name : Text)
        → user_deactivate low t (jwt claims) name ≡ ok t'
        → Step t t'
    renamed_user :
        (t t' : Tenant) (claims : JwtData) (name new_name : Text) (u : User)
        → user_rename low t (jwt claims) name new_name ≡ ok (t', u)
        → Step t t'
    user_deleted :
        (t t' : Tenant) (claims : JwtData) (name : Text)
        → user_delete low t (jwt claims) name ≡ ok t'
        → Step t t'

  pub data Steps : Tenant → Tenant → Type 0 where
    stop : (t : Tenant) → Steps t t
    step : (t t' t'' : Tenant) → Step t t' → Steps t' t'' → Steps t t''

  pub user_activate-inv :
      (t t' : Tenant) (caller : Caller) (name : Text)
      → user_activate low t caller name ≡ ok t'
      → (u : User) × (require_above_user t caller u.id ≡ ok tt) × (t' ≡ set_active t u.id true)
  unfolding user_activate
  user_activate-inv t t' caller name e =
      let (u, _, p, h) = guarded (user low t name) (λ u. require_above_user t caller u.id) _ e in
      (u, p, sym (ok-injective h))

  pub user_deactivate-inv :
      (t t' : Tenant) (caller : Caller) (name : Text)
      → user_deactivate low t caller name ≡ ok t'
      → (u : User) × (require_above_user t caller u.id ≡ ok tt) × (t' ≡ set_active t u.id false)
  unfolding user_deactivate
  user_deactivate-inv t t' caller name e =
      let (u, _, p, h) = guarded (user low t name) (λ u. require_above_user t caller u.id) _ e in
      (u, p, sym (ok-injective h))

  pub user_delete-inv :
      (t t' : Tenant) (caller : Caller) (name : Text)
      → user_delete low t caller name ≡ ok t'
      → (u : User) × (require_above_user t caller u.id ≡ ok tt) × (t' ≡ delete_user_rows t u.id)
  unfolding user_delete
  user_delete-inv t t' caller name e =
      let (u, _, p, h) = guarded (user low t name) (λ u. require_above_user t caller u.id) _ e in
      (u, p, sym (ok-injective h))

  renamed-inv :
      (t t' : Tenant) (u : User) (folded : Text)
      → renamed low t u folded ≡ ok t'
      → (t' ≡ t)
        ⊎ (t' ≡ record t { users = update_user (λ v. record v { name = folded }) u.id t.users })
  renamed-inv t t' u folded e =
      either_write (text_eq folded u.name) (is_empty folded) (user low t folded) t
        (record t { users = update_user (λ v. record v { name = folded }) u.id t.users }) t' e

  pub user_rename-inv :
      (t t' : Tenant) (caller : Caller) (name new_name : Text) (v : User)
      → user_rename low t caller name new_name ≡ ok (t', v)
      → (u : User) × (require_above_user t caller u.id ≡ ok tt)
        × ((t' ≡ t)
            ⊎ (t' ≡ record t {
              users = update_user (λ w. record w { name = low new_name }) u.id t.users;
            }))
  unfolding user_rename
  user_rename-inv t t' caller name new_name v e =
      let (_, e') = (or_refused_iff (not (valid_username new_name)) invalid_name _ _).0 e in
      let (u, _, p, h) = guarded (user low t name) (λ u. require_above_user t caller u.id) _ e' in
      let (t'', a, k) = >>=-eq-ok (renamed low t u (low new_name)) _ h in
      let (w, _, l) = >>=-eq-ok (user_by_id t'' u.id) _ k in
      (
        u,
        p,
        subst
            (λ x.
              (x ≡ t)
              ⊎ (x ≡ record t {
                users = update_user (λ w. record w { name = low new_name }) u.id t.users;
              }))
            (ap (λ x. x.0) (ok-injective l)) (renamed-inv t t'' u (low new_name) a),
      )

  pub user_add_role-inv :
      (t t' : Tenant) (caller : Caller) (name role_name : Text)
      → user_add_role low t caller name role_name ≡ ok t'
      → (u : User) × (r : Role) × (user low t name ≡ ok u)
        × (role t role_name ≡ ok r)
        × (require_below t caller r ≡ ok tt)
        × (any (λ m. text_eq m.user_id u.id && text_eq m.role_id r.id) t.user_roles ≡ false)
        × (t' ≡ record t { user_roles = record { user_id = u.id; role_id = r.id } ∷ t.user_roles })
  unfolding user_add_role
  user_add_role-inv t t' caller name role_name e =
      let (u, w, e') = >>=-eq-ok (user low t name) _ e in
      let (r, f, p, h) = guarded (role t role_name) (λ r. require_below t caller r) _ e' in
      let (a, b) =
        (or_refused_iff (any (λ m. text_eq m.user_id u.id && text_eq m.role_id r.id) t.user_roles)
            duplicate
            (ok
              (record t { user_roles = record { user_id = u.id; role_id = r.id } ∷ t.user_roles }))
            t').0
          h in
      (u, r, w, f, p, a, sym (ok-injective b))

  pub user_del_role-inv :
      (t t' : Tenant) (caller : Caller) (name role_name : Text)
      → user_del_role low t caller name role_name ≡ ok t'
      → (u : User) × (r : Role) × (role t role_name ≡ ok r)
        × (require_below t caller r ≡ ok tt)
        × (t' ≡ record t {
          user_roles =
              retain (λ m. not (text_eq m.user_id u.id && text_eq m.role_id r.id)) t.user_roles;
        })
  unfolding user_del_role
  user_del_role-inv t t' caller name role_name e =
      let (u, _, e') = >>=-eq-ok (user low t name) _ e in
      let (r, f, p, h) = guarded (role t role_name) (λ r. require_below t caller r) _ e' in
      (u, r, f, p, sym (ok-injective h))

  pub user_create-inv :
      (t t' : Tenant) (fresh name : Text) (u : User)
      → user_create low t fresh name ≡ ok (t', u)
      → (valid_username name ≡ true)
        × (any (λ v. text_eq v.name (low name) || text_eq v.id fresh) t.users ≡ false)
        × (u ≡ record { id = fresh; name = low name; active = true })
        × (t' ≡ record t { users = u ∷ t.users })
  unfolding user_create
  user_create-inv t t' fresh name u e =
      let (a, e') = (or_refused_iff (not (valid_username name)) invalid_name _ _).0 e in
      let (b, e'') =
        (or_refused_iff (any (λ v. text_eq v.name (low name) || text_eq v.id fresh) t.users)
            duplicate _ _).0
          e' in
      let v : User = record { id = fresh; name = low name; active = true } in
      let same : u ≡ v = sym (ap (λ x. x.1) (ok-injective e'')) in
      (
        ground (arith, a),
        b,
        same,
        sym (ap (λ x. x.0) (ok-injective e''))
            ∙ ap (λ w. record t { users = w ∷ t.users }) (sym same),
      )
