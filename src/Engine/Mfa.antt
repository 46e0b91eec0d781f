-- ===== src/Engine/Mfa.antt =====
-- The MFA signal (`expect_mfa`) that the engine returns beside its verdict.
use janux.Common.{
  Bool, Bool-cases, List, Option, Option-cases, Text, [], ap, arith, false, inl, inr, lookup, none,
  refl, some, true, ◌||◌, ◌∙◌, ◌∷◌, ◌≡◌, ◌⊎◌,
}
use janux.Policy.{Policy, JwtData, CanAccess, Request, can_access}
use janux.Policy.Matching.{granting_row, can_access-roles}
use janux.Engine.{
  RoleMap, PolicyCache, Permit, or_permit, scan_policies, scan_roles, is_permitted, decide,
}

-- No outcome both grants and asks for MFA.
abbrev Honest : (Policy → Option CanAccess) → Type 0
Honest f = (p : Policy) (c : CanAccess) → f p ≡ some c → c.can_access ≡ true → c.expect_mfa ≡ false

-- What the first row that applies to a request answers.
abbrev pub or_first : Option CanAccess → Option CanAccess → Option CanAccess
or_first none later = later
or_first (some c) later = some c

unfoldable pub first_answer : (Policy → Option CanAccess) → List Policy → Option CanAccess
first_answer f [] = none
first_answer f (p ∷ ps) = or_first (f p) (first_answer f ps)

-- So far nothing has refused and nothing has asked for MFA, or something has refused.
abbrev Quiet : Permit → Type 0
Quiet v = (v.expect_mfa ≡ false) ⊎ (v.permitted ≡ some false)

module _ (f : Policy → Option CanAccess) (honest : Honest f) where
  -- A scan that is not stopped leaves the signal unset; one that is stopped has refused.
  scan_policies-Quiet :
      (ps : List Policy) (v : Permit)
      → v.expect_mfa ≡ false
      → ((scan_policies f ps v).0.expect_mfa ≡ false)
        ⊎ (((scan_policies f ps v).1 ≡ true) × ((scan_policies f ps v).0.permitted ≡ some false))
  unfolding scan_policies
  scan_policies-Quiet [] v e = inl e
  scan_policies-Quiet (p ∷ ps) v e = elim (Option-cases (f p)) [
    | inl h ↦ rw (h, scan_policies) (scan_policies-Quiet ps v e)
    | inr (c, h) ↦ elim (Bool-cases c.can_access) [
      | inl g ↦
          rw (h, scan_policies, g)
            (scan_policies-Quiet ps
              (record {
                permitted = or_permit v.permitted;
                expect_mfa = v.expect_mfa || c.expect_mfa;
              })
              (rw (e, honest p c h g)))
      | inr g ↦ rw (h, scan_policies, g) (inr (refl, refl))
    ]
  ]

  scan_roles-Quiet :
      (m : RoleMap) (rs : List Text) (v : Permit)
      → v.expect_mfa ≡ false
      → Quiet (scan_roles f m rs v)
  unfolding scan_roles
  scan_roles-Quiet m [] v e = inl e
  scan_roles-Quiet m (r ∷ rs) v e = elim (Option-cases (lookup r m)) [
    | inl h ↦ rw (h, scan_roles) (scan_roles-Quiet m rs v e)
    | inr (ps, h) ↦
        rw (h, scan_roles)
          (elim (Bool-cases (scan_policies f ps v).1) [
            | inl stop ↦
                rw stop (elim (scan_policies-Quiet ps v e) [ inl q ↦ inl q | inr q ↦ inr q.1 ])
            | inr on ↦ rw on (elim (scan_policies-Quiet ps v e) [
              | inl q ↦ scan_roles-Quiet m rs (scan_policies f ps v).0 q
              | inr q ↦ absurd (ground (arith, q.0, on))
            ])
          ])
  ]

first_answer-cong :
    (f g : Policy → Option CanAccess)
    → ((p : Policy) → f p ≡ g p)
    → (ps : List Policy) → first_answer f ps ≡ first_answer g ps
unfolding first_answer
first_answer-cong f g same [] = refl
first_answer-cong f g same (p ∷ ps) =
    ap (or_first (f p)) (first_answer-cong f g same ps)
    ∙ ap (λ o. or_first o (first_answer g ps)) (same p)

-- The scan of rows whose first answer refuses stops there.
scan_policies-first :
    (f : Policy → Option CanAccess) (ps : List Policy) (b : Bool)
    → first_answer f ps ≡ some (record { can_access = false; expect_mfa = b })
    → scan_policies f ps (record { permitted = none; expect_mfa = false })
      ≡ (record { permitted = some false; expect_mfa = b }, true)
unfolding scan_policies first_answer
scan_policies-first f [] b h = absurd (ground (arith, h))
scan_policies-first f (p ∷ ps) b h = elim (Option-cases (f p)) [
  | inl e ↦ rw (e, scan_policies) (scan_policies-first f ps b (rw (e, first_answer) at h))
  | inr (c, e) ↦
      let k : c ≡ record { can_access = false; expect_mfa = b } =
        let j = rw (e, first_answer) at h in cc in
      rw (e ∙ ap some k, scan_policies) refl
]

Quiet-of : (v : Permit) → is_permitted v.permitted ≡ true → Quiet v → v.expect_mfa ≡ false
Quiet-of v e (inl q) = q
Quiet-of v e (inr q) = absurd (ground (arith, e, q))

module _ (low : Text → Text) (cache : PolicyCache) (dom : Text) (jwt : JwtData)
    (req : Request) where
  -- A request that is granted never carries the signal to authenticate with MFA first.
  pub decide-expect_mfa :
      (decide low cache dom jwt req).can_access ≡ true
      → (decide low cache dom jwt req).expect_mfa ≡ false
  decide-expect_mfa e = elim (Option-cases (lookup dom cache)) [
    | inl h ↦ unfold decide in rw (h, decide)
    | inr (m, h) ↦
        unfold decide in
        rw (h, decide)
          (Quiet-of _ (unfold decide in rw (h, decide) at e) (
            scan_roles-Quiet (λ p. can_access low p dom jwt req)
              (λ p c x y. (granting_row low p dom jwt req c x y).3) m jwt.roles
              (record { permitted = none; expect_mfa = false }) refl))
  ]

  first_decides :
      (x : Text) (rest : List Text) (ps : List Policy) (m : RoleMap) (b : Bool)
      → lookup dom cache ≡ some m
      → lookup x m ≡ some ps
      → first_answer (λ p. can_access low p dom jwt req) ps
        ≡ some (record { can_access = false; expect_mfa = b })
      → decide low cache dom (record jwt { roles = x ∷ rest }) req
        ≡ record { can_access = false; expect_mfa = b }
  unfolding decide scan_roles
  first_decides x rest ps m b hc found refuses =
      let stops =
        scan_policies-first (λ p. can_access low p dom (record jwt { roles = x ∷ rest }) req) ps b
          (first_answer-cong _ _ (λ p. can_access-roles low p dom jwt req (x ∷ rest)) ps
            ∙ refuses) in
      rw (hc, decide) (rw (found, scan_roles) (rw stops refl))

  -- Where the cache of the domain holds rows of two roles, the first row of the one that applies to
  -- the request refuses it without MFA and the first row of the other that applies asks for MFA, a
  -- token that names these two before its other roles is refused in both orders of the two, and
  -- the response asks for MFA exactly when the second role is visited first.
  pub expect_mfa_order :
      (r s : Text) (rest : List Text) (m : RoleMap) (ds qs : List Policy)
      → lookup dom cache ≡ some m
      → lookup r m ≡ some ds
      → lookup s m ≡ some qs
      → first_answer (λ p. can_access low p dom jwt req) ds
        ≡ some (record { can_access = false; expect_mfa = false })
      → first_answer (λ p. can_access low p dom jwt req) qs
        ≡ some (record { can_access = false; expect_mfa = true })
      → (decide low cache dom (record jwt { roles = r ∷ s ∷ rest }) req
          ≡ record { can_access = false; expect_mfa = false })
        × (decide low cache dom (record jwt { roles = s ∷ r ∷ rest }) req
            ≡ record { can_access = false; expect_mfa = true })
  expect_mfa_order r s rest m ds qs hc hr hs refuses demands = (
    first_decides r (s ∷ rest) ds m false hc hr refuses,
    first_decides s (r ∷ rest) qs m true hc hs demands,
  )
