-- ===== src/PolicyAdmin/Mirror.antt =====
-- The policy cache against the policy table, across loading, creating and deleting policies and
-- deleting roles (src/policy.rs, src/role.rs).
use mathlib.Core.List.{append-nil, append_assoc}
use janux.Common.{
  Bool, In, In-append, In-append_left, In-append_right, In-retain, List, Option, Text, [], ap,
  arith, false, if◌then◌else◌, inl, inr, not, refl, retain, retain-In, subst, sym, text_eq, true, ℕ,
  ◌&&◌, ◌++◌, ◌==◌, ◌↔◌, ◌∙◌, ◌∷◌, ◌≡◌, ◌≢◌, ◌⊎◌,
}
use janux.Policy.{Policy, HttpMethod}
use janux.Engine.{PolicyCache}
use janux.Tenant.{Tenant}
use janux.PolicyAdmin.{push_policy, load_into, all_policy_entries, is_target, delete_rows}
use janux.PolicyAdmin.Cache.{cached, cached-push}

-- The row is one of this domain and this role.
abbrev pub filed : Text → Text → Policy → Bool
filed d r p = text_eq p.domain_id d && text_eq p.role_id r

cached-load_into :
    (c : PolicyCache) (rows : List Policy) (d r : Text)
    → cached (load_into c rows) d r ≡ cached c d r ++ retain (filed d r) rows
unfolding load_into
cached-load_into c [] d r = sym (append-nil (cached c d r))
cached-load_into c (p ∷ ps) d r =
    cached-load_into (push_policy p.domain_id p.role_id p c) ps d r
    ∙ rw (cached-push p.domain_id p.role_id p c d r) (split_on_filed (filed d r p))
  where
    split_on_filed :
        (b : Bool)
        → (if b then cached c d r ++ (p ∷ []) else cached c d r) ++ retain (filed d r) ps
          ≡ cached c d r ++ (if b then p ∷ retain (filed d r) ps else retain (filed d r) ps)
    split_on_filed true = append_assoc (cached c d r) (p ∷ []) (retain (filed d r) ps)
    split_on_filed false = refl

-- A fresh cache holds, for each domain and role, the table's rows of that domain and role, in order.
pub cached-all_policy_entries :
    (rows : List Policy) (d r : Text)
    → cached (all_policy_entries rows) d r ≡ retain (filed d r) rows
unfolding all_policy_entries
cached-all_policy_entries rows d r = cached-load_into [] rows d r

-- The cache holds a row under a domain and a role exactly when the table has it with these.
abbrev pub Mirrors : Tenant → Type 0
Mirrors t =
    (d r : Text) (p : Policy)
    → In p (cached t.policies d r) ↔ (In p t.policy_rows × (filed d r p ≡ true))

-- The primary key of the policy table.
abbrev pub UniqueIds : List Policy → Type 0
UniqueIds rows = (p q : Policy) → In p rows → In q rows → p.id ≡ q.id → p ≡ q

pub record IsMirrored (t : Tenant) : Type 0 where
  pub mirrors : Mirrors t
  pub unique : UniqueIds t.policy_rows

-- The id is not one of the table's.
abbrev pub FreshId : ℕ → List Policy → Type 0
FreshId fresh rows = (p : Policy) → In p rows → p.id ≢ fresh

In-if :
    (b : Bool) (p q : Policy) (ps : List Policy)
    → In p (if b then ps ++ (q ∷ []) else ps) ↔ (In p ps ⊎ ((b ≡ true) × (p ≡ q)))
In-if true p q ps = (
  λ i. elim (In-append p ps (q ∷ []) i) [
    | inl j ↦ inl j
    | inr j ↦ elim j [ inl e ↦ inr (refl, e) | inr k ↦ absurd k ]
  ],
  λ h. elim h [
    | inl j ↦ In-append_left p ps (q ∷ []) j
    | inr k ↦ In-append_right p ps (q ∷ []) (inl k.1)
  ],
)
In-if false p q ps = (λ i. inl i, λ h. elim h [ inl j ↦ j | inr k ↦ cc (k.0) ])

pub push-Mirrors :
    (t : Tenant) (q : Policy)
    → Mirrors t
    → Mirrors (record t {
      policy_rows = q ∷ t.policy_rows;
      policies = push_policy q.domain_id q.role_id q t.policies;
    })
push-Mirrors t q mirrors d s p =
    let g = In-if (filed d s q) p q (cached t.policies d s) in
    let m = mirrors d s p in
    rw (cached-push q.domain_id q.role_id q t.policies d s) (
      λ i. elim (g.0 i) [
        | inl j ↦ (inr (m.0 j).0, (m.0 j).1)
        | inr k ↦ (inl k.1, subst (λ x. filed d s x ≡ true) (sym k.1) k.0)
      ],
      λ h. g.1 (elim h.0 [
        | inl e ↦ inr (subst (λ x. filed d s x ≡ true) e h.1, e)
        | inr j ↦ inl (m.1 (j, h.1))
      ]),
    )

not_same : (m n : ℕ) → (not (m == n) ≡ true) ↔ (m ≢ n)
not_same m n = (λ e h. ground (arith, e, h), λ h. ground (arith, h))

In-removed :
    (b : Bool) (c p : Policy) (rows : List Policy)
    → In p (if b then retain (λ x. not (x.id == c.id)) rows else rows)
      ↔ (In p rows × (b ≡ true → p.id ≢ c.id))
In-removed true c p rows = (
  λ i.
      let (j, e) = In-retain (λ x. not (x.id == c.id)) p rows i in
      (j, λ _. (not_same p.id c.id).0 e),
  λ h. retain-In (λ x. not (x.id == c.id)) p rows h.0 ((not_same p.id c.id).1 (h.1 refl)),
)
In-removed false c p rows = (λ i. (i, λ e. cc), λ h. h.0)

pub delete_rows-In :
    (resource : Text) (action : Option HttpMethod) (cs rows : List Policy) (p : Policy)
    → In p (delete_rows resource action cs rows)
      ↔ (In p rows × ((c : Policy) → In c cs → is_target resource action c ≡ true → p.id ≢ c.id))
unfolding delete_rows
delete_rows-In resource action [] rows p = (λ i. (i, λ c j. absurd j), λ h. h.0)
delete_rows-In resource action (c ∷ cs) rows p =
    let rest =
      if is_target resource action c then retain (λ x. not (x.id == c.id)) rows else rows in
    let g = delete_rows-In resource action cs rest p in
    let k = In-removed (is_target resource action c) c p rows in
    (
      λ i.
          let (j, away) = g.0 i in
          let (l, here) = k.0 j in
          (
            l,
            λ d m e. elim m [
              | inl same ↦ subst (λ x. p.id ≢ x.id) (sym same) (here (rw same at e))
              | inr later ↦ away d later e
            ],
          ),
      λ h. g.1 (k.1 (h.0, λ e. h.1 c (inl refl) e), λ d m e. h.1 d (inr m) e),
    )

-- A tenant whose cache was loaded from its table mirrors it.
pub loaded-IsMirrored :
    (t : Tenant)
    → t.policies ≡ all_policy_entries t.policy_rows
    → UniqueIds t.policy_rows
    → IsMirrored t
loaded-IsMirrored t loaded ids = record {
  mirrors = λ d r p.
      let same : cached t.policies d r ≡ retain (filed d r) t.policy_rows =
        ap (λ c. cached c d r) loaded ∙ cached-all_policy_entries t.policy_rows d r in
      rw same (
        λ i. In-retain (filed d r) p t.policy_rows i,
        λ h. retain-In (filed d r) p t.policy_rows h.0 h.1,
      );
  unique = ids;
}
