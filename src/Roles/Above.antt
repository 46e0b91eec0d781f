-- ===== src/Roles/Above.antt =====
-- `require_above_user` of src/role.rs: acting on a user needs a level strictly above every role the
-- user holds.
use janux.Common.{
  Bool-cases, In, In-append, In-append_left, In-append_right, In-retain, List, Option, Option-cases,
  Text, [], ap, arith, inl, inr, none, refl, retain, retain-In, some, text_eq, text_eq_iff, ℤ, ◌<ℤ◌,
  ◌↔◌, ◌∙◌, ◌∷◌, ◌≡◌,
}
use janux.Policy.{JwtData}
use janux.Tenant.{Role, UserRole, Tenant, jwt, ok, roles_of_user}
use janux.Roles.{
  max_ℤ, max_level, effective_level, user_effective_level, outranks, require_above_user,
}
use janux.Roles.Gate.{Held, effective_level_iff, effective_level-found}

-- The level, if there is one, lies below `l`.
abbrev LevelBelow : Option ℤ → ℤ → Type 0
LevelBelow none l = Unit
LevelBelow (some m) l = m <ℤ l

outranks_iff : (a b : Option ℤ) → (outranks a b ≡ ok tt) ↔ ((l : ℤ) × (a ≡ some l) × LevelBelow b l)
outranks_iff none b = (λ h. cc, λ h. cc (h.1))
outranks_iff (some l) none = (λ _. (l, refl, tt), λ _. refl)
outranks_iff (some l) (some m) = (λ h. (l, refl, ground (arith, h)), λ h. ground (arith, h.1, h.2))

max_ℤ_iff : (a b l : ℤ) → (max_ℤ a b <ℤ l) ↔ ((a <ℤ l) × (b <ℤ l))
max_ℤ_iff a b l = ground arith

abbrev greater : ℤ → Option ℤ → Option ℤ
greater level none = some level
greater level (some m) = some (max_ℤ level m)

max_level-greater :
    (q : Role) (rs : List Role) → max_level (q ∷ rs) ≡ greater q.level (max_level rs)
unfolding max_level
max_level-greater q rs = elim (Option-cases (max_level rs)) [
  | inl h ↦ rw (h, max_level)
  | inr (m, h) ↦ rw (h, max_level)
]

greater_iff :
    (level l : ℤ) (o : Option ℤ) → LevelBelow (greater level o) l ↔ ((level <ℤ l) × LevelBelow o l)
greater_iff level l none = (λ h. (h, tt), λ h. h.0)
greater_iff level l (some m) = max_ℤ_iff level m l

max_level-LevelBelow :
    (rs : List Role) (l : ℤ) → LevelBelow (max_level rs) l ↔ ((r : Role) → In r rs → r.level <ℤ l)
unfolding max_level
max_level-LevelBelow [] l = (λ _ r i. absurd i, λ _. tt)
max_level-LevelBelow (q ∷ rs) l =
    let top = greater_iff q.level l (max_level rs) in
    let rest = max_level-LevelBelow rs l in
    rw (max_level-greater q rs) (
      λ h r i. elim i [ inl e ↦ rw e (top.0 h).0 | inr j ↦ rest.0 (top.0 h).1 r j ],
      λ h. top.1 (h q (inl refl), rest.1 (λ r i. h r (inr i))),
    )

roles_of_user-In :
    (ms : List UserRole) (roles : List Role) (user : Text) (r : Role)
    → In r (roles_of_user ms roles user)
      ↔ ((m : UserRole) × In m ms × (m.user_id ≡ user) × In r roles × (r.id ≡ m.role_id))
unfolding roles_of_user
roles_of_user-In [] roles user r = (λ i. absurd i, λ h. absurd (h.1))
roles_of_user-In (m ∷ ms) roles user r = elim (Bool-cases (text_eq m.user_id user)) [
  | inr ne ↦
      rw (ne, roles_of_user)
        (
          λ i. let (n, j, e, k, h) = (roles_of_user-In ms roles user r).0 i in (n, inr j, e, k, h),
          λ (n, j, e, l, h). elim j [
            | inl same ↦
                absurd (ground (arith, ne, ap (λ x. x.user_id) same, e, text_eq_iff m.user_id user))
            | inr k ↦ (roles_of_user-In ms roles user r).1 (n, k, e, l, h)
          ],
        )
  | inl eq ↦
      let own = retain (λ q. text_eq q.id m.role_id) roles in
      let rest = roles_of_user ms roles user in
      rw (eq, roles_of_user)
        (
          λ i. elim (In-append r own rest i) [
            | inl j ↦
                let (k, h) = In-retain (λ q. text_eq q.id m.role_id) r roles j in
                (
                  m,
                  inl refl,
                  (text_eq_iff m.user_id user).0 eq,
                  k,
                  (text_eq_iff r.id m.role_id).0 h,
                )
            | inr j ↦
                let (n, k, e, a, h) = (roles_of_user-In ms roles user r).0 j in (n, inr k, e, a, h)
          ],
          λ (n, j, e, k, h). elim j [
            | inl same ↦ In-append_left r own rest (
                retain-In (λ q. text_eq q.id m.role_id) r roles k
                  ((text_eq_iff r.id m.role_id).1 (h ∙ ap (λ x. x.role_id) same)))
            | inr l ↦
                In-append_right r own rest ((roles_of_user-In ms roles user r).1 (n, l, e, k, h))
          ],
        )
]

-- A token may act on a user exactly when it holds a resolved role at some level that lies strictly
-- above every role that the user's memberships name.
pub require_above_user_iff :
    (t : Tenant) (claims : JwtData) (user : Text)
    → (require_above_user t (jwt claims) user ≡ ok tt) ↔ (
        (l : ℤ) × Held t claims.roles l
        × ((m : UserRole) (r : Role)
            → In m t.user_roles
            → m.user_id ≡ user
            → In r t.roles
            → r.id ≡ m.role_id
            → r.level <ℤ l))
unfolding require_above_user user_effective_level
require_above_user_iff t claims user =
    let rs = roles_of_user t.user_roles t.roles user in
    let gate = outranks_iff (effective_level t (jwt claims)) (max_level rs) in
    (
      λ h.
          let (l, e, below) = gate.0 h in
          (
            l,
            ((effective_level_iff t claims l).0 e).0,
            λ m r i same j name.
                (max_level-LevelBelow rs l).0 below r
                  ((roles_of_user-In t.user_roles t.roles user r).1 (m, i, same, j, name)),
          ),
      λ (l, held, below).
          let (k, e, le) = effective_level-found t claims l held in
          gate.1 (
            k,
            e,
            (max_level-LevelBelow rs k).1 (λ r i.
                let (m, j, same, a, name) = (roles_of_user-In t.user_roles t.roles user r).0 i in
                ground (arith, le, below m r j same a name)),
          ),
    )
