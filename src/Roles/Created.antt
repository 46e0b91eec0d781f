-- ===== src/Roles/Created.antt =====
-- `role_create` of src/role.rs: what a token can add to the catalogue.
use janux.Common.{
  List, Option, Option-cases, Text, [], any, ap, arith, false, find, inl, inr, ltb_ℤ, none, pos,
  refl, some, sym, text_eq, ℤ, ◌<ℤ◌, ◌↔◌, ◌∷◌, ◌≡◌, ◌≤ℤ◌, ◌⊎◌,
}
use janux.Policy.{JwtData}
use janux.Tenant.{
  Role, Tenant, jwt, Error, negative_level, duplicate, not_found, ok, err, ◌>>◌, role, insert_role,
  or_err, or_refused_iff, >>_iff, ok-injective,
}
use janux.Roles.{builtin_level, require_level, create_custom, role_create}
use janux.Roles.Gate.{Held, require_level_iff}

abbrev pub custom_role : Text → ℤ → Role
custom_role name level = record { id = name; level = level; builtin = false }

none_named :
    (name : Text) (rs : List Role)
    → (any (λ q. text_eq q.id name) rs ≡ false) ↔ (find (λ q. text_eq q.id name) rs ≡ none)
none_named name [] = (λ _. refl, λ _. refl)
none_named name (r ∷ rs) = ground (arith, none_named name rs)

or_err-none : {A : Type 0} (o : Option A) (e : Error) → (or_err o e ≡ err e) ↔ (o ≡ none)
or_err-none none e = (λ _. refl, λ _. refl)
or_err-none (some a) e = (λ h. cc, λ h. cc)

insert_role_iff :
    (t t' : Tenant) (r q : Role)
    → (insert_role t r ≡ ok (t', q))
      ↔ ((role t r.id ≡ err not_found) × (q ≡ r) × (t' ≡ record t { roles = r ∷ t.roles }))
unfolding insert_role role
insert_role_iff t t' r q =
    let split =
      or_refused_iff (any (λ p. text_eq p.id r.id) t.roles) duplicate
        (ok (record t { roles = r ∷ t.roles }, r)) (t', q) in
    let fresh = none_named r.id t.roles in
    let missing = or_err-none (find (λ p. text_eq p.id r.id) t.roles) not_found in
    (
      λ h.
          let (a, b) = split.0 h in
          let c = ok-injective b in
          (missing.1 (fresh.0 a), sym (ap (λ x. x.1) c), sym (ap (λ x. x.0) c)),
      λ h. let (a, b, c) = h in split.1 (fresh.1 (missing.0 a), cc),
    )

gated_iff :
    (t t' : Tenant) (claims : JwtData) (name : Text) (level : ℤ) (q : Role)
    → (create_custom t (jwt claims) name level ≡ ok (t', q)) ↔ (
        (pos 0 ≤ℤ level)
        × (require_level t (jwt claims) level ≡ ok tt)
        × (insert_role t (custom_role name level) ≡ ok (t', q)))
gated_iff t t' claims name level q =
    let sign =
      or_refused_iff (ltb_ℤ level (pos 0)) negative_level
        (require_level t (jwt claims) level >> insert_role t (custom_role name level)) (t', q) in
    let gate =
      >>_iff (require_level t (jwt claims) level) (insert_role t (custom_role name level))
        (t', q) in
    (
      λ h. let (a, b) = sign.0 h in let (c, d) = gate.0 b in (ground (arith, a), c, d),
      λ h. let (a, b, c) = h in sign.1 (ground (arith, a), gate.1 (b, c)),
    )

role_cases :
    (t : Tenant) (name : Text) → ((r : Role) × (role t name ≡ ok r)) ⊎ (role t name ≡ err not_found)
unfolding role
role_cases t name = elim (Option-cases (find (λ r. text_eq r.id name) t.roles)) [
  | inl h ↦ inr (rw h)
  | inr (r, h) ↦ inl (r, rw h)
]

-- A token's creation of a role succeeds exactly when the name is neither builtin nor taken, the
-- level is not negative, and one of the token's names resolves to a role strictly above that level;
-- the outcome is the table with the new role, which is not builtin.
pub role_create_iff :
    (t t' : Tenant) (claims : JwtData) (name : Text) (level : ℤ) (q : Role)
    → (role_create t (jwt claims) name level ≡ ok (t', q)) ↔ (
        (builtin_level name ≡ none)
        × (role t name ≡ err not_found)
        × (pos 0 ≤ℤ level)
        × ((l : ℤ) × Held t claims.roles l × (level <ℤ l))
        × (q ≡ custom_role name level)
        × (t' ≡ record t { roles = custom_role name level ∷ t.roles }))
unfolding role_create
role_create_iff t t' claims name level q = elim (Option-cases (builtin_level name)) [
  | inr (l, b) ↦ rw (b, role_create) (λ h. cc, λ h. cc (h.0))
  | inl b ↦ elim (role_cases t name) [
    | inl (r, f) ↦ rw (b, f, role_create) (λ h. cc, λ h. cc (h.1))
    | inr f ↦
        let custom = gated_iff t t' claims name level q in
        let insert = insert_role_iff t t' (custom_role name level) q in
        let gate = require_level_iff t claims level in
        rw (b, f, role_create)
          (
            λ h.
                let (c, d, e) = custom.0 h in
                let (_, g, k) = insert.0 e in (refl, refl, c, gate.0 d, g, k),
            λ h. let (_, _, c, d, e, g) = h in custom.1 (c, gate.1 d, insert.1 (f, e, g)),
          )
  ]
]
