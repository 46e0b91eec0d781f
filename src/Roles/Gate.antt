-- ===== src/Roles/Gate.antt =====
-- The level gate of src/role.rs: whom it lets through.
use janux.Common.{
  In, List, Option, Text, [], ap, arith, i64_max, inl, inr, none, refl, some, subst, sym, ℤ, ◌<ℤ◌,
  ◌↔◌, ◌∙◌, ◌∷◌, ◌≡◌, ◌≤ℤ◌, ◌⊎◌,
}
use janux.Policy.{JwtData}
use janux.Tenant.{Role, Tenant, Caller, bootstrap, jwt, Result, ok, err, role}
use janux.Roles.{
  max_ℤ, map_or_max, absorb, level_of_names, effective_level, above, require_level, require_below,
}

-- The best level so far is met by `l`.
abbrev Covered : Option ℤ → ℤ → Type 0
Covered none l = Unit
Covered (some m) l = m ≤ℤ l

-- One of the names resolves to a role of level `l`.
abbrev pub Held : Tenant → List Text → ℤ → Type 0
Held t names l = (name : Text) × (r : Role) × In name names × (role t name ≡ ok r) × (r.level ≡ l)

-- Every name that resolves has a level of at most `l`.
abbrev pub Bounded : Tenant → List Text → ℤ → Type 0
Bounded t names l = (name : Text) (r : Role) → In name names → role t name ≡ ok r → r.level ≤ℤ l

map_or_max-Covered :
    (best : Option ℤ) (level l : ℤ)
    → Covered (map_or_max best level) l
    → Covered best l × (level ≤ℤ l)
map_or_max-Covered none level l h = (tt, h)
map_or_max-Covered (some m) level l h = ground arith

map_or_max-source :
    (best : Option ℤ) (level : ℤ)
    → (map_or_max best level ≡ best) ⊎ (map_or_max best level ≡ some level)
map_or_max-source none level = inr refl
map_or_max-source (some m) level = ground arith

absorb-Covered :
    (best : Option ℤ) (x : Result Role) (l : ℤ)
    → Covered (absorb best x) l
    → Covered best l × ((r : Role) → x ≡ ok r → r.level ≤ℤ l)
absorb-Covered best (ok q) l h =
    let (a, b) = map_or_max-Covered best q.level l h in (a, λ r e. ground (arith, e, b))
absorb-Covered best (err _) l h = (h, λ r e. absurd (ground (arith, e)))

level_of_names-Covered :
    (t : Tenant) (names : List Text) (best : Option ℤ) (l : ℤ)
    → level_of_names t names best ≡ some l
    → Covered best l × Bounded t names l
unfolding level_of_names
level_of_names-Covered t [] best l e =
    (subst (λ o. Covered o l) (sym e) (omega arith), λ _ _ i _. absurd i)
level_of_names-Covered t (x ∷ xs) best l e =
    let (a, b) = level_of_names-Covered t xs (absorb best (role t x)) l e in
    let (c, d) = absorb-Covered best (role t x) l a in
    (c, λ name r i h. elim i [ inl j ↦ d r (rw (← j) h) | inr j ↦ b name r j h ])

absorb-source :
    (best : Option ℤ) (x : Result Role)
    → (absorb best x ≡ best) ⊎ ((r : Role) × (x ≡ ok r) × (absorb best x ≡ some r.level))
absorb-source best (ok r) = elim (map_or_max-source best r.level) [
  | inl e ↦ inl e
  | inr e ↦ inr (r, refl, e)
]
absorb-source best (err _) = inl refl

level_of_names-source :
    (t : Tenant) (names : List Text) (best : Option ℤ) (l : ℤ)
    → level_of_names t names best ≡ some l
    → (best ≡ some l) ⊎ Held t names l
unfolding level_of_names
level_of_names-source t [] best l e = inl e
level_of_names-source t (x ∷ xs) best l e =
    elim (level_of_names-source t xs (absorb best (role t x)) l e) [
      | inl a ↦ elim (absorb-source best (role t x)) [
        | inl b ↦ inl (sym b ∙ a)
        | inr (r, b, c) ↦ inr (x, r, inl refl, b, ground (arith, a, c))
      ]
      | inr (name, r, i, h, k) ↦ inr (name, r, inr i, h, k)
    ]

absorb-some : (m : ℤ) (x : Result Role) → (k : ℤ) × (absorb (some m) x ≡ some k)
absorb-some m (ok r) = (max_ℤ m r.level, refl)
absorb-some m (err _) = (m, refl)

absorb-found :
    (best : Option ℤ) (x : Result Role) (r : Role) → x ≡ ok r → (k : ℤ) × (absorb best x ≡ some k)
absorb-found none (ok q) r e = (q.level, refl)
absorb-found (some m) (ok q) r e = (max_ℤ m q.level, refl)
absorb-found best (err _) r e = absurd (ground (arith, e))

level_of_names-some :
    (t : Tenant) (names : List Text) (m : ℤ) → (l : ℤ) × (level_of_names t names (some m) ≡ some l)
unfolding level_of_names
level_of_names-some t [] m = (m, refl)
level_of_names-some t (x ∷ xs) m =
    let (k, e) = absorb-some m (role t x) in rw e (level_of_names-some t xs k)

level_of_names-found :
    (t : Tenant) (names : List Text) (best : Option ℤ) (name : Text) (r : Role)
    → In name names
    → role t name ≡ ok r
    → (l : ℤ) × (level_of_names t names best ≡ some l)
unfolding level_of_names
level_of_names-found t [] best name r i h = absurd i
level_of_names-found t (x ∷ xs) best name r (inr i) h =
    level_of_names-found t xs (absorb best (role t x)) name r i h
level_of_names-found t (x ∷ xs) best name r (inl e) h =
    let (k, g) = absorb-found best (role t x) r (rw (← e) h) in rw g (level_of_names-some t xs k)

≤ℤ_antisym : (a b : ℤ) → a ≤ℤ b → b ≤ℤ a → a ≡ b
≤ℤ_antisym a b h k = ground arith

names_iff :
    (t : Tenant) (names : List Text) (l : ℤ)
    → (level_of_names t names none ≡ some l) ↔ (Held t names l × Bounded t names l)
names_iff t names l = (
  λ e. (held l e, (level_of_names-Covered t names none l e).1),
  λ h.
      let ((name, r, i, k, e), top) = h in
      let (m, f) = level_of_names-found t names none name r i k in
      let (name', r', i', k', e') = held m f in
      let below = top name' r' i' k' in
      let above = (level_of_names-Covered t names none m f).1 name r i k in
      f ∙ ap some (≤ℤ_antisym m l (rw e' at below) (rw e at above)),
)
  where
    held : (m : ℤ) → level_of_names t names none ≡ some m → Held t names m
    held m e = elim (level_of_names-source t names none m e) [ inl a ↦ cc | inr h ↦ h ]

above-ok :
    (o : Option ℤ) (level : ℤ) → (above o level ≡ ok tt) ↔ ((l : ℤ) × (o ≡ some l) × (level <ℤ l))
above-ok none level = (λ e. cc, λ h. cc (h.1))
above-ok (some l) level = (λ e. (l, refl, ground (arith, e)), λ h. ground (arith, h.1, h.2))

-- A token's effective level is the greatest level among the roles that its names resolve to.
pub effective_level_iff :
    (t : Tenant) (claims : JwtData) (l : ℤ)
    → (effective_level t (jwt claims) ≡ some l) ↔ (Held t claims.roles l × Bounded t claims.roles l)
unfolding effective_level
effective_level_iff t claims l = names_iff t claims.roles l

pub effective_level-found :
    (t : Tenant) (claims : JwtData) (l : ℤ)
    → Held t claims.roles l
    → (k : ℤ) × (effective_level t (jwt claims) ≡ some k) × (l ≤ℤ k)
unfolding effective_level
effective_level-found t claims l (name, r, i, h, e) =
    let (k, f) = level_of_names-found t claims.roles none name r i h in
    (k, f, ground (arith, e, ((names_iff t claims.roles k).0 f).1 name r i h))

-- The gate lets a token pass exactly when one of its names resolves to a role strictly above.
pub require_level_iff :
    (t : Tenant) (claims : JwtData) (level : ℤ)
    → (require_level t (jwt claims) level ≡ ok tt)
      ↔ ((l : ℤ) × Held t claims.roles l × (level <ℤ l))
unfolding require_level effective_level
require_level_iff t claims level = (
  λ e.
      let (l, f, h) = (above-ok (level_of_names t claims.roles none) level).0 e in
      (l, ((names_iff t claims.roles l).0 f).0, h),
  λ h.
      let (l, (name, r, i, k, e), lt) = h in
      let (m, f) = level_of_names-found t claims.roles none name r i k in
      let le = ((names_iff t claims.roles m).0 f).1 name r i k in
      (above-ok (level_of_names t claims.roles none) level).1 (m, f, ground (arith, e, lt, le)),
)

-- The seed caller passes the gate exactly below i64::MAX.
pub require_level-bootstrap :
    (t : Tenant) (level : ℤ) → (require_level t bootstrap level ≡ ok tt) ↔ (level <ℤ i64_max)
unfolding require_level effective_level
require_level-bootstrap t level = (λ e. ground (arith, e), λ h. ground (arith, h))

pub require_below-level :
    (t : Tenant) (caller : Caller) (r : Role)
    → require_below t caller r ≡ require_level t caller r.level
unfolding require_below
require_below-level t caller r = refl
