-- ===== src/Engine/Decision.antt =====
-- The engine's verdict as a statement about the rows, without the loops.
use janux.Common.{
  Bool, Bool-cases, List, Option, Option-cases, Text, [], all, all-append, any, any-append, ap,
  arith, false, if◌then◌else◌, inl, inr, is_some, lookup, none, not, refl, some, true, ◌&&◌, ◌++◌,
  ◌||◌, ◌∙◌, ◌∷◌, ◌≡◌,
}
use janux.Policy.{Policy, JwtData, CanAccess, Request, can_access}
use janux.Engine.{
  RoleMap, PolicyCache, Permit, or_permit, scan_policies, scan_roles, is_permitted, decide,
}

abbrev pub rows_of : Option (List Policy) → List Policy
rows_of none = []
rows_of (some ps) = ps

-- Every row cached for one of the roles.
abbrev pub candidates : RoleMap → List Text → List Policy
candidates m [] = []
candidates m (r ∷ rs) = rows_of (lookup r m) ++ candidates m rs

abbrev pub grants : Option CanAccess → Bool
grants none = true
grants (some c) = c.can_access

-- The permission while no row has refused.
abbrev seen_so_far : Bool → Option Bool
seen_so_far true = some true
seen_so_far false = none

or_permit_seen : (seen : Bool) → or_permit (seen_so_far seen) ≡ some true
or_permit_seen true = refl
or_permit_seen false = refl

or_assoc : (a b c : Bool) → ((a || b) || c) ≡ (a || (b || c))
or_assoc true b c = refl
or_assoc false b c = refl

module _ (f : Policy → Option CanAccess) where
  scan_policies_lem :
      (ps : List Policy) (v : Permit) (seen : Bool)
      → v.permitted ≡ seen_so_far seen
      → ((scan_policies f ps v).1 ≡ not (all (λ p. grants (f p)) ps))
        × ((scan_policies f ps v).0.permitted ≡ (
            if all (λ p. grants (f p)) ps
            then seen_so_far (seen || any (λ p. is_some (f p)) ps)
            else some false))
  unfolding scan_policies
  scan_policies_lem [] v true e = (refl, e)
  scan_policies_lem [] v false e = (refl, e)
  scan_policies_lem (p ∷ ps) v seen e = elim (Option-cases (f p)) [
    | inl h ↦ rw (h, scan_policies) (scan_policies_lem ps v seen e)
    | inr (tmp, h) ↦
        rw (h, scan_policies)
          (ground (
            arith,
            or_permit_seen seen,
            scan_policies_lem ps
                (record {
                  permitted = or_permit v.permitted;
                  expect_mfa = v.expect_mfa || tmp.expect_mfa;
                })
                true (ap or_permit e ∙ or_permit_seen seen),
          ))
  ]

  after_role :
      (m : RoleMap) (rs : List Text) (v : Permit) (seen : Bool) (ps : List Policy)
      → ((scan_policies f ps v).1 ≡ not (all (λ p. grants (f p)) ps))
        × ((scan_policies f ps v).0.permitted ≡ (
            if all (λ p. grants (f p)) ps
            then seen_so_far (seen || any (λ p. is_some (f p)) ps)
            else some false))
      → ((s : Bool)
          → (scan_policies f ps v).0.permitted ≡ seen_so_far s
          → (scan_roles f m rs (scan_policies f ps v).0).permitted ≡ (
              if all (λ p. grants (f p)) (candidates m rs)
              then seen_so_far (s || any (λ p. is_some (f p)) (candidates m rs))
              else some false))
      → (if (scan_policies f ps v).1
          then (scan_policies f ps v).0
          else scan_roles f m rs (scan_policies f ps v).0).permitted
        ≡ (if all (λ p. grants (f p)) ps && all (λ p. grants (f p)) (candidates m rs)
            then seen_so_far (
                seen || (any (λ p. is_some (f p)) ps || any (λ p. is_some (f p)) (candidates m rs)))
            else some false)
  after_role m rs v seen ps one rest = elim (Bool-cases (all (λ p. grants (f p)) ps)) [
    | inl a ↦
        let (stop, now) = one in
        rw (a, stop ∙ ap not a)
          (rest (seen || any (λ p. is_some (f p)) ps) (rw a at now)
            ∙ rw (or_assoc seen (any (λ p. is_some (f p)) ps)))
    | inr a ↦ let (stop, now) = one in rw (a, stop ∙ ap not a) (rw a at now)
  ]

  scan_roles_lem :
      (m : RoleMap) (rs : List Text) (v : Permit) (seen : Bool)
      → v.permitted ≡ seen_so_far seen
      → (scan_roles f m rs v).permitted ≡ (
          if all (λ p. grants (f p)) (candidates m rs)
          then seen_so_far (seen || any (λ p. is_some (f p)) (candidates m rs))
          else some false)
  unfolding scan_roles
  scan_roles_lem m [] v true e = e
  scan_roles_lem m [] v false e = e
  scan_roles_lem m (r ∷ rs) v seen e = elim (Option-cases (lookup r m)) [
    | inl h ↦ rw (h, scan_roles) (scan_roles_lem m rs v seen e)
    | inr (ps, h) ↦
        rw (h, scan_roles)
          (let one = scan_policies_lem ps v seen e in
            rw
              (
                any-append (λ p. is_some (f p)) ps (candidates m rs),
                all-append (λ p. grants (f p)) ps (candidates m rs),
              )
              (after_role m rs v seen ps one (λ s. scan_roles_lem m rs (scan_policies f ps v).0 s)))
  ]

permit_of :
    (a b : Bool) → is_permitted (if a then seen_so_far (false || b) else some false) ≡ (b && a)
permit_of true true = refl
permit_of true false = refl
permit_of false true = refl
permit_of false false = refl

-- Some row applies, and each that applies grants.
abbrev pub allowed_by : (Policy → Option CanAccess) → List Text → Option RoleMap → Bool
allowed_by f roles none = false
allowed_by f roles (some m) =
    any (λ p. is_some (f p)) (candidates m roles) && all (λ p. grants (f p)) (candidates m roles)

module _ (low : Text → Text) (cache : PolicyCache) (dom : Text) (jwt : JwtData)
    (req : Request) where
  abbrev outcome : Policy → Option CanAccess
  outcome p = can_access low p dom jwt req

  -- Where the domain has cached rows, access is granted exactly when some row of the token's roles
  -- applies and every row of them that applies grants; where it has none, access is refused.
  pub decide-can_access :
      (decide low cache dom jwt req).can_access
      ≡ allowed_by (λ p. can_access low p dom jwt req) jwt.roles (lookup dom cache)
  unfolding decide
  decide-can_access = elim (Option-cases (lookup dom cache)) [
    | inl h ↦ rw (h, decide)
    | inr (m, h) ↦
        rw (h, decide)
          (ap is_permitted (
              scan_roles_lem outcome m jwt.roles (record { permitted = none; expect_mfa = false })
                false refl)
            ∙ permit_of (all (λ p. grants (outcome p)) (candidates m jwt.roles))
                (any (λ p. is_some (outcome p)) (candidates m jwt.roles)))
  ]
