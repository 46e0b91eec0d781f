-- ===== src/Members/Signup.antt =====
-- `signup_provision` of src/user.rs: what a self-signup leaves behind, database failures included.
use janux.Common.{
  Bool, Bool-cases, List, Text, [], all, any, ap, arith, chars, false, inl, inr, none, not, refl,
  retain, some, subst, sym, text_eq, text_eq_refl, true, ◌||◌, ◌∙◌, ◌∷◌, ◌≡◌, ◌⊎◌,
}
use janux.Tenant.{
  Role, User, Tenant, bootstrap, Error, not_found, ok, err, ◌>>=◌, ◌>>◌, or_err, role, Result-cases,
  ok-injective, Result,
}
use janux.Roles.{require_above_user}
use janux.Members.{
  user, user_create, user_delete, user_add_role, valid_username, delete_user_rows, last_match,
  signup_provision, SignupFaults, written,
}
use janux.Members.Steps.{user_create-inv, user_add_role-inv}

retain-all {ℓ} : {A : Type ℓ} (p : A → Bool) (xs : List A) → all p xs ≡ true → retain p xs ≡ xs
retain-all p [] h = refl
retain-all p (x ∷ xs) h = ground (arith, retain-all p xs (ground (arith, h)), h)

last_match-none : (p : User → Bool) (us : List User) → any p us ≡ false → last_match p us ≡ none
last_match-none p [] h = refl
last_match-none p (u ∷ us) h = rw (last_match-none p us (ground (arith, h))) (ground (arith, h))

not_both : {A : Type 0} {a : A} {e : Error} → ok a ≡ err e → ⊥
not_both h = cc

written-ok :
    {A : Type 0} (b : Bool) (r : Result A) (x : A) → written b r ≡ ok x → (r ≡ ok x) × (b ≡ false)
written-ok true (ok y) x h = absurd (not_both (sym h))
written-ok false (ok y) x h = (h, refl)
written-ok b (err e) x h = absurd (not_both (sym h))

module _ (low : Text → Text) (t : Tenant) (fresh name : Text) where
  abbrev pub new_user : User
  new_user = record { id = fresh; name = low name; active = true }

  abbrev pub with_user : Tenant
  with_user = record t { users = new_user ∷ t.users }

  abbrev pub clash : User → Bool
  clash v = text_eq v.name (low name) || text_eq v.id fresh

  name_free :
      (us : List User) → any clash us ≡ false → any (λ v. text_eq v.name (low name)) us ≡ false
  name_free [] h = refl
  name_free (u ∷ us) h = ground (arith, h, name_free us (ground (arith, h)))

  id_free : (us : List User) → any clash us ≡ false → all (λ v. not (text_eq v.id fresh)) us ≡ true
  id_free [] h = refl
  id_free (u ∷ us) h = ground (arith, h, id_free us (ground (arith, h)))

  user-new : any clash t.users ≡ false → user low with_user name ≡ ok new_user
  unfolding user
  user-new h =
      let only : last_match (λ u. text_eq u.name (low name)) (new_user ∷ t.users) ≡ some new_user =
        rw (last_match-none (λ u. text_eq u.name (low name)) t.users (name_free t.users h))
          (ground (arith, text_eq_refl (low name))) in
      ap (λ o. or_err o not_found) only

  -- Removing the account that was just created gives back the tenant.
  user_delete-new :
      any clash t.users ≡ false
      → all (λ m. not (text_eq m.user_id fresh)) t.user_roles ≡ true
      → user_delete low with_user bootstrap name ≡ ok t
  unfolding user_delete require_above_user
  user_delete-new h orphans =
      ap
        (λ x. x >>= λ u.
          require_above_user with_user bootstrap u.id >> ok (delete_user_rows with_user u.id))
        (user-new h)
      ∙ rw (
        text_eq_refl fresh,
        retain-all (λ v. not (text_eq v.id fresh)) t.users (id_free t.users h),
        retain-all (λ m. not (text_eq m.user_id fresh)) t.user_roles orphans,
      )

  module _ (faults : SignupFaults) where
    -- The rollback of a grant that failed.
    rolled_back :
        (t' : Tenant)
        → any clash t.users ≡ false
        → all (λ m. not (text_eq m.user_id fresh)) t.user_roles ≡ true
        → elim (written faults.delete_fails (user_delete low with_user bootstrap name)) [
          | ok t'' ↦ t''
          | err _ ↦ with_user
        ]
          ≡ t'
        → ((faults.delete_fails ≡ false) × (t' ≡ t))
          ⊎ ((faults.delete_fails ≡ true) × (t' ≡ with_user))
    rolled_back t' free orphans h = elim (Bool-cases faults.delete_fails) [
      | inl b ↦ inr (b, sym (rw (user_delete-new free orphans, b) at h))
      | inr b ↦ inl (b, sym (rw (user_delete-new free orphans, b) at h))
    ]

    -- A signup that fails, by a check or by the database, leaves the tenant as it was, where no
    -- membership names the fresh id; only where the write of the rollback fails may it leave the
    -- account behind, active and without a role, and nothing else.
    pub signup_provision-undone :
        (t' : Tenant) (e : Error)
        → all (λ m. not (text_eq m.user_id fresh)) t.user_roles ≡ true
        → signup_provision low faults t fresh name ≡ (t', err e)
        → (t' ≡ t) ⊎ ((faults.delete_fails ≡ true) × (t' ≡ with_user))
    unfolding signup_provision
    signup_provision-undone t' e orphans h =
        elim (Result-cases (written faults.create_fails (user_create low t fresh name))) [
          | inr (d, c) ↦ inl (ap (λ x. x.0) (sym h) ∙ rw (c, signup_provision))
          | inl ((t1, u), c) ↦
              let (_, free, made, same) =
                user_create-inv low t t1 fresh name u (written-ok _ _ _ c).0 in
              let t1_is : t1 ≡ with_user = same ∙ ap (λ v. record t { users = v ∷ t.users }) made in
              elim (Result-cases (role t1 (chars "guest"))) [
                | inr (d, g) ↦
                    let value : signup_provision low faults t fresh name ≡ (t1, ok tt) =
                      rw (c, g, signup_provision) in
                    absurd (not_both (ap (λ x. x.1) (sym value ∙ h)))
                | inl (r, g) ↦
                    elim (Result-cases (
                      written faults.grant_fails
                        (user_add_role low t1 bootstrap name (chars "guest")))) [
                          | inl (t2, a) ↦
                              let value : signup_provision low faults t fresh name ≡ (t2, ok tt) =
                                rw (c, g, a, signup_provision) in
                              absurd (not_both (ap (λ x. x.1) (sym value ∙ h)))
                          | inr (d, a) ↦
                              elim (rolled_back t' free orphans (
                                subst
                                  (λ x.
                                    elim (written faults.delete_fails
                                      (user_delete low x bootstrap name)) [
                                        | ok t'' ↦ t''
                                        | err _ ↦ x
                                      ]
                                    ≡ t')
                                  t1_is (ap (λ x. x.0) (rw (c, g, a, signup_provision) at h)))) [
                                    | inl (b, kept) ↦ inl kept
                                    | inr left ↦ inr left
                                  ]
                        ]
              ]
        ]

    -- A signup that succeeds had a valid name and a name and an id that nobody had; it adds the
    -- account, active, and the membership of `guest` where that role exists, and nothing else.
    pub signup_provision-done :
        (t' : Tenant)
        → signup_provision low faults t fresh name ≡ (t', ok tt)
        → (valid_username name ≡ true)
          × (any clash t.users ≡ false)
          × ((t' ≡ with_user) × ((d : Error) × (role t (chars "guest") ≡ err d))
              ⊎ ((r : Role) × (role t (chars "guest") ≡ ok r)
                  × (t' ≡ record with_user {
                    user_roles = record { user_id = fresh; role_id = r.id } ∷ t.user_roles;
                  })))
    unfolding signup_provision role
    signup_provision-done t' h =
        elim (Result-cases (written faults.create_fails (user_create low t fresh name))) [
          | inr (d, c) ↦
              let value : signup_provision low faults t fresh name ≡ (t, err d) =
                rw (c, signup_provision) in
              absurd (not_both (ap (λ x. x.1) (sym h ∙ value)))
          | inl ((t1, u), c) ↦
              let (valid, free, made, same) =
                user_create-inv low t t1 fresh name u (written-ok _ _ _ c).0 in
              let t1_is : t1 ≡ with_user = same ∙ ap (λ v. record t { users = v ∷ t.users }) made in
              (
                valid,
                free,
                (elim (Result-cases (role t1 (chars "guest"))) [
                  | inr (d, g) ↦
                      let value : signup_provision low faults t fresh name ≡ (t1, ok tt) =
                        rw (c, g, signup_provision) in
                      inl (
                        ap (λ x. x.0) (sym h ∙ value) ∙ t1_is,
                        (d, ap (λ x. role x (chars "guest")) (sym t1_is) ∙ g),
                      )
                  | inl (r, g) ↦
                      elim (Result-cases (
                        written faults.grant_fails
                          (user_add_role low t1 bootstrap name (chars "guest")))) [
                            | inr (d, a) ↦
                                let value : (signup_provision low faults t fresh name).1 ≡ err d =
                                  rw (c, g, a, signup_provision) in
                                absurd (not_both (sym (ap (λ x. x.1) h) ∙ value))
                            | inl (t2, a) ↦
                                let (v, q, w, f, _, _, k) =
                                  user_add_role-inv low t1 t2 bootstrap name (chars "guest")
                                    (written-ok _ _ _ a).0 in
                                let named : v ≡ new_user =
                                  ok-injective
                                    (sym w ∙ ap (λ x. user low x name) t1_is ∙ user-new free) in
                                let role_same : q ≡ r = ok-injective (sym f ∙ g) in
                                let value : signup_provision low faults t fresh name ≡ (t2, ok tt) =
                                  rw (c, g, a, signup_provision) in
                                inr (
                                  r,
                                  ap (λ x. role x (chars "guest")) (sym t1_is) ∙ g,
                                  ap (λ x. x.0) (sym h ∙ value)
                                      ∙ k
                                      ∙ ap
                                          (λ (x : Tenant). record x {
                                            user_roles =
                                                record { user_id = v.id; role_id = q.id }
                                                ∷ x.user_roles;
                                          })
                                          t1_is
                                      ∙ rw (named, role_same),
                                )
                          ]
                ]),
              )
        ]
