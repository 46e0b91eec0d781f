-- ===== src/Members/Top/Effects.antt =====
-- What each kind of change that a step makes does to the top of the role hierarchy.
use janux.Common.{
  Bool-cases, In, In-retain, List, Text, [], ap, arith, false, if◌then◌else◌, inl, inr, not, retain,
  retain-In, subst, sym, text_eq, text_eq_iff, true, ℤ, ◌&&◌, ◌∙◌, ◌∷◌, ◌≡◌, ◌≤ℤ◌, ◌⊎◌,
}
use janux.Tenant.{Role, User, UserRole, Tenant, not_found, Result, ok, err, role, or_err}
use janux.Roles.{drop_role}
use janux.Roles.Created.{custom_role}
use janux.Members.{delete_user_rows, update_user}
use janux.PolicyAdmin.Revoked.{find-removed}
use janux.Members.Top.{Capped, Kept, find-retain-ne}

module _ (t : Tenant) (top : Text) (r : Role) (found : role t top ≡ ok r)
    (capped : Capped r.level t) where
  role-cons :
      (q : Role) (name : Text)
      → role (record t { roles = q ∷ t.roles }) name
        ≡ (if text_eq q.id name then ok q else role t name)
  unfolding role
  role-cons q name = ground arith

  role-drop_role :
      (name other : Text)
      → role (drop_role t name) other ≡ (if text_eq other name then err not_found else role t other)
  unfolding role
  role-drop_role name other = elim (Bool-cases (text_eq other name)) [
    | inl h ↦
        rw (h, (text_eq_iff other name).0 h)
          (ap (λ o. or_err o not_found) (find-removed name t.roles))
    | inr h ↦ rw h (ap (λ o. or_err o not_found) (find-retain-ne name other t.roles h))
  ]

  pub add_role-Kept :
      (name : Text) (level : ℤ)
      → role t name ≡ err not_found
      → level ≤ℤ r.level
      → Kept top r t (record t { roles = custom_role name level ∷ t.roles })
  add_role-Kept name level fresh le = (
    role-cons (custom_role name level) top ∙ ground (arith, fresh, found, text_eq_iff name top),
    λ n q e.
        resolved n q (Bool-cases (text_eq name n)) (sym (role-cons (custom_role name level) n) ∙ e),
    λ m _. (λ i. i, λ i. i),
    λ u m _ _ _ i. i,
  )
    where
      resolved :
          (n : Text) (q : Role)
          → (text_eq name n ≡ true) ⊎ (text_eq name n ≡ false)
          → if◌then◌else◌ {A = Result Role}
              (text_eq name n)
              (ok (custom_role name level))
              (role t n)
            ≡ ok q
          → q.level ≤ℤ r.level
      resolved n q (inl h) e =
          let same : custom_role name level ≡ q = ground (arith, rw h at e) in
          subst (λ (x : Role). x.level ≤ℤ r.level) same le
      resolved n q (inr h) e = capped n q (rw h at e)

  pub drop_role-Kept : (name : Text) → text_eq top name ≡ false → Kept top r t (drop_role t name)
  drop_role-Kept name ne = (
    rw (role-drop_role name top, ne) found,
    λ n q e. below n q (Bool-cases (text_eq n name)) (sym (role-drop_role name n) ∙ e),
    λ m h. (
      λ i. retain-In _ m t.user_roles i (ground (arith, ne, h)),
      λ i. (In-retain _ m t.user_roles i).0,
    ),
    λ u m _ _ _ i. i,
  )
    where
      below :
          (n : Text) (q : Role)
          → (text_eq n name ≡ true) ⊎ (text_eq n name ≡ false)
          → if◌then◌else◌ {A = Result Role} (text_eq n name) (err not_found) (role t n) ≡ ok q
          → q.level ≤ℤ r.level
      below n q (inl h) e = absurd (ground (arith, rw h at e))
      below n q (inr h) e = capped n q (rw h at e)

  pub grant-Kept :
      (user name : Text)
      → text_eq top name ≡ false
      → Kept top r t
          (record t { user_roles = record { user_id = user; role_id = name } ∷ t.user_roles })
  unfolding role
  grant-Kept user name ne = (
    found,
    capped,
    λ m h. (
      λ i. inr i,
      λ i. elim i [
        | inl e ↦ absurd (ground (arith, ne, ap (λ x. x.role_id) e, h, text_eq_iff top name))
        | inr j ↦ j
      ],
    ),
    λ u m _ _ _ i. i,
  )

  pub revoke-Kept :
      (user name : Text)
      → text_eq top name ≡ false
      → Kept top r t (record t {
        user_roles =
            retain (λ m. not (text_eq m.user_id user && text_eq m.role_id name)) t.user_roles;
      })
  unfolding role
  revoke-Kept user name ne = (
    found,
    capped,
    λ m h. (
      λ i. retain-In _ m t.user_roles i (ground (arith, ne, h)),
      λ i. (In-retain _ m t.user_roles i).0,
    ),
    λ u m _ _ _ i. i,
  )

  pub add_user-Kept : (u : User) → Kept top r t (record t { users = u ∷ t.users })
  unfolding role
  add_user-Kept v = (found, capped, λ m _. (λ i. i, λ i. i), λ u m _ _ _ i. inr i)

  update_user-In :
      (f : User → User) (id : Text) (u : User) (us : List User)
      → In u us
      → text_eq u.id id ≡ false
      → In u (update_user f id us)
  unfolding update_user
  update_user-In f id u [] i ne = absurd i
  update_user-In f id u (v ∷ us) i ne = elim (Bool-cases (text_eq v.id id)) [
    | inr h ↦
        rw (h, update_user) (elim i [ inl e ↦ inl e | inr j ↦ inr (update_user-In f id u us j ne) ])
    | inl h ↦
        rw (h, update_user)
          (elim i [
            | inl e ↦ absurd (ground (arith, ap (λ x. x.id) e, h, ne))
            | inr j ↦ inr (update_user-In f id u us j ne)
          ])
  ]

  -- The account that changes is not a holder's.
  pub update_user-Kept :
      (f : User → User) (id : Text)
      → ((m : UserRole) → In m t.user_roles → m.role_id ≡ top → text_eq m.user_id id ≡ false)
      → Kept top r t (record t { users = update_user f id t.users })
  unfolding role
  update_user-Kept f id apart = (
    found,
    capped,
    λ m _. (λ i. i, λ i. i),
    λ u m i h e j. update_user-In f id u t.users j (rw e at (apart m i h)),
  )

  pub delete_user_rows-Kept :
      (id : Text)
      → ((m : UserRole) → In m t.user_roles → m.role_id ≡ top → text_eq m.user_id id ≡ false)
      → Kept top r t (delete_user_rows t id)
  unfolding role
  delete_user_rows-Kept id apart = (
    found,
    capped,
    λ m h. (
      λ i. retain-In _ m t.user_roles i (ground (arith, apart m i h)),
      λ i. (In-retain _ m t.user_roles i).0,
    ),
    λ u m i h e j. retain-In _ u t.users j (ground (arith, apart m i h, rw e at (apart m i h))),
  )
