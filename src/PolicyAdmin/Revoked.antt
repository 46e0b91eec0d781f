-- ===== src/PolicyAdmin/Revoked.antt =====
-- Deleting a role (src/role.rs) with its policies, in the table and in the cache, and with its
-- memberships.
use janux.Common.{
  Bool, Bool-cases, In, In-retain, List, Text, [], arith, false, find, if◌then◌else◌, inl, inr,
  none, not, refl, retain, retain-In, subst, sym, text_eq, text_eq_iff, text_eq_refl, true, ◌↔◌,
  ◌∙◌, ◌∷◌, ◌≡◌,
}
use janux.Policy.{Policy, JwtData, Request}
use janux.Engine.{decide}
use janux.Engine.Order.{decide-granted}
use janux.Tenant.{
  Role, UserRole, Tenant, Caller, forbidden, not_found, Result, ok, err, ◌>>◌, >>=-eq-ok,
  ok-injective, role,
}
use janux.Roles.{drop_role, role_delete, require_below}
use janux.PolicyAdmin.Cache.{cached, cached-remove_role_rows, cached-found}
use janux.PolicyAdmin.Mirror.{Mirrors, IsMirrored}

In-unless :
    (b : Bool) (p : Policy) (ps : List Policy)
    → In p (if◌then◌else◌ {A = List Policy} b [] ps) ↔ (In p ps × (b ≡ false))
In-unless true p ps = (λ i. absurd i, λ h. absurd (ground (arith, h.1)))
In-unless false p ps = (λ i. (i, refl), λ h. h.0)

remove-Mirrors : (t : Tenant) (name : Text) → Mirrors t → Mirrors (drop_role t name)
remove-Mirrors t name mirrors d s p =
    let m = mirrors d s p in
    let g = In-unless (text_eq name s) p (cached t.policies d s) in
    let keep = λ (q : Policy). not (text_eq q.role_id name) in
    rw (cached-remove_role_rows name t.policies d s) (
      λ i.
          let (j, ne) = g.0 i in
          let (k, f) = m.0 j in
          (
            retain-In keep p t.policy_rows k (
                ground (
                  arith,
                  ne,
                  f,
                  text_eq_iff p.role_id name,
                  text_eq_iff p.role_id s,
                  text_eq_iff name s,
                )),
            f,
          ),
      λ h.
          let (k, ne) = In-retain keep p t.policy_rows h.0 in
          g.1 (
            m.1 (k, h.1),
            (ground (
              arith,
              ne,
              h.1,
              text_eq_iff p.role_id name,
              text_eq_iff p.role_id s,
              text_eq_iff name s,
            )),
          ),
    )

unless_builtin :
    (b : Bool) (gate : Result (Unit {0})) (u t' : Tenant)
    → if◌then◌else◌ {A = Result Tenant} b (err forbidden) (gate >> ok u) ≡ ok t'
    → (b ≡ false) × (gate ≡ ok tt) × (t' ≡ u)
unless_builtin true gate u t' e = cc
unless_builtin false (ok _) u t' e = (refl, refl, sym (ok-injective e))
unless_builtin false (err _) u t' e = cc

-- What a deletion that succeeds has checked and done.
pub role_delete-inv :
    (t t' : Tenant) (caller : Caller) (name : Text)
    → role_delete t caller name ≡ ok t'
    → (r : Role) × (role t name ≡ ok r)
      × (r.builtin ≡ false)
      × (require_below t caller r ≡ ok tt)
      × (t' ≡ drop_role t name)
unfolding role_delete
role_delete-inv t t' caller name e =
    let (r, f, e') = >>=-eq-ok (role t name) _ e in
    let (a, b, c) = unless_builtin r.builtin (require_below t caller r) (drop_role t name) t' e' in
    (r, f, a, b, c)

-- A deletion that succeeds was of a role that is not builtin and lies below the caller; the cache
-- stays a mirror of the policy table.
pub role_delete-IsMirrored :
    (t t' : Tenant) (caller : Caller) (name : Text)
    → role_delete t caller name ≡ ok t'
    → IsMirrored t
    → IsMirrored t'
      × ((r : Role) × (role t name ≡ ok r)
          × (r.builtin ≡ false)
          × (require_below t caller r ≡ ok tt))
role_delete-IsMirrored t t' caller name e v =
    let (r, found, custom, passed, same) = role_delete-inv t t' caller name e in
    (
      subst IsMirrored (sym same) (record {
        mirrors = remove-Mirrors t name v.mirrors;
        unique = λ p q i j.
            v.unique p q (In-retain _ p t.policy_rows i).0 (In-retain _ q t.policy_rows j).0;
      }),
      (r, found, custom, passed),
    )

pub find-removed :
    (name : Text) (rs : List Role)
    → find (λ r. text_eq r.id name) (retain (λ r. not (text_eq r.id name)) rs) ≡ none
find-removed name [] = refl
find-removed name (r ∷ rs) = ground (arith, find-removed name rs)

gone : (t : Tenant) (name : Text) → role (drop_role t name) name ≡ err not_found
unfolding role
gone t name = rw (find-removed name t.roles)

refused :
    (t : Tenant) (name : Text) (low : Text → Text) (dom : Text) (claims : JwtData) (req : Request)
    → ((r : Text) → In r claims.roles → r ≡ name)
    → (decide low (drop_role t name).policies dom claims req).can_access ≡ false
refused t name low dom claims req only =
    elim (Bool-cases (decide low (drop_role t name).policies dom claims req).can_access) [
      | inr e ↦ e
      | inl e ↦
          let (m, r, p, found, i, j, _, _, _) =
            decide-granted low (drop_role t name).policies dom claims req e in
          let nothing : cached (drop_role t name).policies dom r ≡ [] =
            cached-remove_role_rows name t.policies dom r ∙ rw (only r i, text_eq_refl) in
          absurd (
            subst (In p) (sym (cached-found (drop_role t name).policies dom r m found) ∙ nothing) j)
    ]

-- After a deletion the name resolves to no role and to no cached row, nobody is a member, and a
-- token whose only role is the name is refused every request; the cached rows of other roles and
-- their memberships are what they were.
pub role_delete-revokes :
    (t t' : Tenant) (caller : Caller) (name : Text)
    → role_delete t caller name ≡ ok t'
    → (role t' name ≡ err not_found)
      × ((d r : Text)
          → cached t'.policies d r ≡ (if text_eq name r then [] else cached t.policies d r))
      × ((m : UserRole)
          → In m t'.user_roles ↔ (In m t.user_roles × (text_eq m.role_id name ≡ false)))
      × ((low : Text → Text) (dom : Text) (claims : JwtData) (req : Request)
          → ((r : Text) → In r claims.roles → r ≡ name)
          → (decide low t'.policies dom claims req).can_access ≡ false)
role_delete-revokes t t' caller name e =
    let (r, found, custom, passed, same) = role_delete-inv t t' caller name e in
    subst
      (λ u.
        (role u name ≡ err not_found)
        × ((d r : Text)
            → cached u.policies d r ≡ (if text_eq name r then [] else cached t.policies d r))
        × ((m : UserRole)
            → In m u.user_roles ↔ (In m t.user_roles × (text_eq m.role_id name ≡ false)))
        × ((low : Text → Text) (dom : Text) (claims : JwtData) (req : Request)
            → ((r : Text) → In r claims.roles → r ≡ name)
            → (decide low u.policies dom claims req).can_access ≡ false))
      (sym same)
      (
        gone t name,
        λ d s. cached-remove_role_rows name t.policies d s,
        λ m. (
          λ i. let (j, k) = In-retain _ m t.user_roles i in (j, ground (arith, k)),
          λ h. retain-In _ m t.user_roles h.0 (ground (arith, h.1)),
        ),
        λ low dom claims req only. refused t name low dom claims req only,
      )
