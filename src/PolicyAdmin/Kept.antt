-- ===== src/PolicyAdmin/Kept.antt =====
-- The operations that change policies keep the cache and the table in step, and what they change.
use janux.Common.{
  Bool, Bool-cases, In, In-retain, List, Option, Text, ap, arith, false, if◌then◌else◌, inl, inr,
  not, refl, retain, retain-In, subst, sym, text_eq, text_eq_iff, true, ℕ, ◌&&◌, ◌↔◌, ◌∙◌, ◌∷◌, ◌≡◌,
}
use janux.Policy.{Policy, HttpMethod, action_eq}
use janux.Tenant.{Role, Tenant, Caller, duplicate, Result, ok, err, guarded, ok-injective, role}
use janux.Roles.{require_below}
use janux.PolicyAdmin.{
  push_policy, NewPolicy, row_of, policy_create, is_target, delete_rows, evict_policy,
  policy_delete, stored_resource,
}
use janux.PolicyAdmin.Cache.{cached, stays, cached-evict}
use janux.PolicyAdmin.Mirror.{
  filed, Mirrors, UniqueIds, IsMirrored, FreshId, push-Mirrors, delete_rows-In,
}

abbrev candidates : List Policy → Text → Text → List Policy
candidates rows dom r = retain (filed dom r) rows

-- The row that a deletion names.
abbrev pub named : Text → Text → Text → Option HttpMethod → Policy → Bool
named dom r resource action p = filed dom r p && is_target resource action p

module _ (rows : List Policy) (unique : UniqueIds rows) (dom r resource : Text)
    (action : Option HttpMethod) where
  -- Deleting the candidates by id takes out the named rows and no other.
  pub delete_rows-named :
      (p : Policy)
      → In p (delete_rows resource action (candidates rows dom r) rows)
        ↔ (In p rows × (named dom r resource action p ≡ false))
  delete_rows-named p =
      let g = delete_rows-In resource action (candidates rows dom r) rows p in
      (
        λ i.
            let (j, away) = g.0 i in
            (
              j,
              elim (Bool-cases (named dom r resource action p)) [
                | inr e ↦ e
                | inl e ↦ absurd (
                    away p (retain-In (filed dom r) p rows j (ground (arith, e)))
                      (ground (arith, e)) refl)
              ],
            ),
        λ h. g.1 (
          h.0,
          λ c m e same.
              let (n, f) = In-retain (filed dom r) c rows m in
              let q = unique p c h.0 n same in
              absurd
                (ground (arith, f, e, subst (λ x. named dom r resource action x ≡ false) q h.1)),
        ),
      )

evicted_iff :
    (x y d s dom r : Text) (a b : Bool)
    → (text_eq x d && text_eq y s) ≡ true
    → ((text_eq dom d && text_eq r s) ≡ true → not (a && b) ≡ true)
      ↔ ((text_eq x dom && text_eq y r && (b && a)) ≡ false)
evicted_iff x y d s dom r a b e = (
  λ h. elim (Bool-cases (a && b)) [
    | inl c ↦ elim (Bool-cases (text_eq dom d && text_eq r s)) [
      | inl k ↦ absurd (ground (arith, h k, c))
      | inr k ↦ ground (
        arith,
        e,
        k,
        text_eq_iff x d,
        text_eq_iff y s,
        text_eq_iff dom d,
        text_eq_iff r s,
        text_eq_iff x dom,
        text_eq_iff y r,
      )
    ]
    | inr c ↦ ground (arith, c)
  ],
  λ h k. ground (
    arith,
    e,
    k,
    h,
    text_eq_iff x d,
    text_eq_iff y s,
    text_eq_iff dom d,
    text_eq_iff r s,
    text_eq_iff x dom,
    text_eq_iff y r,
  ),
)

module _ (t : Tenant) (v : IsMirrored t) (dom r resource : Text) (action : Option HttpMethod) where
  In-stays :
      (b : Bool) (p : Policy) (ps : List Policy)
      → In p (if b then retain (stays resource action) ps else ps)
        ↔ (In p ps × (b ≡ true → stays resource action p ≡ true))
  In-stays true p ps = (
    λ i. let (j, e) = In-retain (stays resource action) p ps i in (j, λ _. e),
    λ h. retain-In (stays resource action) p ps h.0 (h.1 refl),
  )
  In-stays false p ps = (λ i. (i, λ e. cc), λ h. h.0)

  evict-Mirrors : Mirrors (record t {
    policy_rows = delete_rows resource action (candidates t.policy_rows dom r) t.policy_rows;
    policies = evict_policy dom r resource action t.policies;
  })
  evict-Mirrors d s p =
      let g = In-stays (text_eq dom d && text_eq r s) p (cached t.policies d s) in
      let m = v.mirrors d s p in
      let k = delete_rows-named t.policy_rows v.unique dom r resource action p in
      let ev =
        evicted_iff p.domain_id p.role_id d s dom r (action_eq p.action action)
          (text_eq p.resource resource) in
      rw (cached-evict dom r resource action t.policies d s) (
        λ i. let (j, st) = g.0 i in let (l, f) = m.0 j in (k.1 (l, (ev f).0 st), f),
        λ h. let (l, n) = k.0 h.0 in g.1 (m.1 (l, h.1), (ev h.1).1 n),
      )

  UniqueIds-delete_rows :
      UniqueIds (delete_rows resource action (candidates t.policy_rows dom r) t.policy_rows)
  UniqueIds-delete_rows p q i j e =
      let k = delete_rows-named t.policy_rows v.unique dom r resource action in
      v.unique p q ((k p).0 i).0 ((k q).0 j).0 e

-- The tenant with one more policy row, in the table and in the cache.
abbrev pub with_row : Tenant → Policy → Tenant
with_row t p = record t {
  policy_rows = p ∷ t.policy_rows;
  policies = push_policy p.domain_id p.role_id p t.policies;
}

accepted :
    (b : Bool) (t t' : Tenant) (q p : Policy)
    → (if◌then◌else◌ {A = Result (Tenant × Policy)} b (ok (with_row t q, q)) (err duplicate))
      ≡ ok (t', p)
    → (t' ≡ with_row t p) × (p ≡ q)
accepted true t t' q p e =
    let f = ok-injective e in
    (sym (ap (λ x. x.0) f) ∙ ap (with_row t) (ap (λ x. x.1) f), sym (ap (λ x. x.1) f))
accepted false t t' q p e = cc

with_row-IsMirrored :
    (t : Tenant) (p : Policy)
    → IsMirrored t
    → FreshId p.id t.policy_rows
    → IsMirrored (with_row t p)
with_row-IsMirrored t p v free = record {
  mirrors = push-Mirrors t p v.mirrors;
  unique = λ x y i j e. elim i [
    | inl a ↦ elim j [ inl b ↦ a ∙ sym b | inr b ↦ absurd (free y b (sym e ∙ ap (λ q. q.id) a)) ]
    | inr a ↦ elim j [
      | inl b ↦ absurd (free x a (e ∙ ap (λ q. q.id) b))
      | inr b ↦ v.unique x y a b e
    ]
  ];
}

-- A created policy is one more row of the table, with the role that was named, and the cache stays
-- a mirror of the table; nothing else of the tenant changes.
pub policy_create-IsMirrored :
    (accepts : List Policy → Policy → Bool) (fresh : ℕ) (t t' : Tenant) (caller : Caller)
    (n : NewPolicy) (p : Policy)
    → policy_create accepts fresh t caller n ≡ ok (t', p)
    → FreshId fresh t.policy_rows
    → IsMirrored t
    → IsMirrored t'
      × (t' ≡ with_row t p)
      × ((r : Role) × (role t n.role_name ≡ ok r)
          × (require_below t caller r ≡ ok tt)
          × (p ≡ row_of fresh n r))
unfolding policy_create
policy_create-IsMirrored accepts fresh t t' caller n p e free v =
    let (r, found, passed, done) = guarded (role t n.role_name) (require_below t caller) _ e in
    let (same, row) =
      accepted (accepts t.policy_rows (row_of fresh n r)) t t' (row_of fresh n r) p done in
    (
      subst IsMirrored (sym same) (with_row-IsMirrored t p v (rw row free)),
      same,
      (r, found, passed, row),
    )

-- A deleted policy leaves the table and the cache together: of the table go exactly the rows of the
-- domain, the role, the resource and the action named, and the cache stays a mirror of it.
pub policy_delete-IsMirrored :
    (t t' : Tenant) (caller : Caller) (dom resource : Text) (action : Option HttpMethod)
    (role_name : Text)
    → policy_delete t caller dom resource action role_name ≡ ok t'
    → IsMirrored t
    → IsMirrored t'
      × ((r : Role) × (role t role_name ≡ ok r)
          × (require_below t caller r ≡ ok tt)
          × ((p : Policy)
              → In p t'.policy_rows ↔ (
                  In p t.policy_rows
                  × (named dom r.id (stored_resource resource) action p ≡ false))))
unfolding policy_delete
policy_delete-IsMirrored t t' caller dom resource action role_name e v =
    let (r, found, passed, done) = guarded (role t role_name) (require_below t caller) _ e in
    let stored = stored_resource resource in
    let same = ok-injective done in
    subst
      (λ u.
        IsMirrored u
        × ((r : Role) × (role t role_name ≡ ok r)
            × (require_below t caller r ≡ ok tt)
            × ((p : Policy)
                → In p u.policy_rows
                  ↔ (In p t.policy_rows × (named dom r.id stored action p ≡ false)))))
      same
      (
        record {
          mirrors = evict-Mirrors t v dom r.id stored action;
          unique = UniqueIds-delete_rows t v dom r.id stored action;
        },
        (r, found, passed, delete_rows-named t.policy_rows v.unique dom r.id stored action),
      )
