-- ===== src/Members/Top.antt =====
-- The top of the role hierarchy: what the steps of Members/Steps.antt leave alone.
pub mod Effects
pub mod Reach
use janux.Common.{
  Bool-cases, In, List, Option-cases, Text, [], all, all-In, ap, arith, false, find, inl, inr,
  leb_ℤ, not, refl, retain, some, sym, text_eq, text_eq_iff, true, ℤ, ◌<ℤ◌, ◌↔◌, ◌∙◌, ◌∷◌, ◌≡◌,
  ◌≤ℤ◌,
}
use janux.Policy.{JwtData}
use janux.Tenant.{
  Role, User, UserRole, Tenant, Caller, jwt, Error, not_found, Result, ok, err, role, or_err,
  ok-injective,
}
use janux.Roles.{require_level, require_below, require_above_user, drop_role}
use janux.Roles.Gate.{Held, require_level_iff, require_below-level}
use janux.Roles.Above.{require_above_user_iff}
use janux.Roles.Created.{role_create_iff}

-- No name resolves to a role above `level`.
abbrev pub Capped : ℤ → Tenant → Type 0
Capped level t = (name : Text) (r : Role) → role t name ≡ ok r → r.level ≤ℤ level

-- The role `r` named `top`, who holds it, and the accounts of its holders are as they were.
abbrev pub Kept : Text → Role → Tenant → Tenant → Type 0
Kept top r t t' =
    (role t' top ≡ ok r)
    × Capped r.level t'
    × ((m : UserRole) → m.role_id ≡ top → In m t.user_roles ↔ In m t'.user_roles)
    × ((u : User) (m : UserRole)
        → In m t.user_roles
        → m.role_id ≡ top
        → m.user_id ≡ u.id
        → In u t.users
        → In u t'.users)

pub gate-below :
    (t : Tenant) (claims : JwtData) (level cap : ℤ)
    → Capped cap t
    → require_level t (jwt claims) level ≡ ok tt
    → level <ℤ cap
gate-below t claims level cap capped e =
    let (l, (name, q, _, f, g), lt) = (require_level_iff t claims level).0 e in
    ground (arith, g, lt, capped name q f)

pub require_below-not_top :
    (t : Tenant) (claims : JwtData) (top name : Text) (r q : Role)
    → role t top ≡ ok r
    → Capped r.level t
    → role t name ≡ ok q
    → require_below t (jwt claims) q ≡ ok tt
    → text_eq top name ≡ false
require_below-not_top t claims top name r q f capped g e = elim (Bool-cases (text_eq top name)) [
  | inr ne ↦ ne
  | inl eq ↦
      let same : r ≡ q = ok-injective (sym f ∙ ap (role t) ((text_eq_iff top name).0 eq) ∙ g) in
      let below =
        gate-below t claims q.level r.level capped
          (sym (require_below-level t (jwt claims) q) ∙ e) in
      absurd (ground (arith, same, below))
]

found-In :
    (name : Text) (rs : List Role) (r : Role)
    → find (λ q. text_eq q.id name) rs ≡ some r
    → In r rs × (r.id ≡ name)
found-In name [] r e = cc
found-In name (q ∷ rs) r e = elim (Bool-cases (text_eq q.id name)) [
  | inl h ↦
      let same : q ≡ r = ground (arith, rw h at e) in
      (inl (sym same), ap (λ x. x.id) (sym same) ∙ (text_eq_iff q.id name).0 h)
  | inr h ↦ let (i, g) = found-In name rs r (rw h at e) in (inr i, g)
]

pub role-In :
    (t : Tenant) (name : Text) (r : Role) → role t name ≡ ok r → In r t.roles × (r.id ≡ name)
unfolding role
role-In t name r e = elim (Option-cases (find (λ q. text_eq q.id name) t.roles)) [
  | inl h ↦ absurd (ground (arith, e, h))
  | inr (q, h) ↦ found-In name t.roles r (ground (arith, e, h))
]

pub require_above_user-not_top :
    (t : Tenant) (claims : JwtData) (top user : Text) (r : Role) (m : UserRole)
    → role t top ≡ ok r
    → Capped r.level t
    → require_above_user t (jwt claims) user ≡ ok tt
    → In m t.user_roles
    → m.role_id ≡ top
    → text_eq m.user_id user ≡ false
require_above_user-not_top t claims top user r m f capped e i h =
    elim (Bool-cases (text_eq m.user_id user)) [
      | inr ne ↦ ne
      | inl eq ↦
          let (j, name) = role-In t top r f in
          let (l, (held, q, _, g, at), below) = (require_above_user_iff t claims user).0 e in
          absurd (
            ground (
              arith,
              at,
              capped held q g,
              below m r i ((text_eq_iff m.user_id user).0 eq) j (name ∙ sym h),
            ))
    ]

pub find-retain-ne :
    (name other : Text) (rs : List Role)
    → text_eq other name ≡ false
    → find (λ r. text_eq r.id other) (retain (λ r. not (text_eq r.id name)) rs)
      ≡ find (λ r. text_eq r.id other) rs
find-retain-ne name other [] ne = refl
find-retain-ne name other (r ∷ rs) ne = ground (
  arith,
  find-retain-ne name other rs ne,
  text_eq_iff r.id name,
  text_eq_iff r.id other,
  text_eq_iff other name,
)

pub Capped-all : (cap : ℤ) (t : Tenant) → all (λ r. leb_ℤ r.level cap) t.roles ≡ true → Capped cap t
Capped-all cap t h name r e =
    let low_enough = all-In (λ q. leb_ℤ q.level cap) r t.roles h (role-In t name r e).0 in
    ground (arith, low_enough)
