-- ===== src/Engine.antt =====
-- The policy engine inside `validate_token` of src/utils.rs: the two loops over the roles of the
-- token and over the cached rows of each role.
pub mod Decision
pub mod Order
pub mod Mfa
use janux.Common.{
  Bool, List, Option, Text, [], false, if◌then◌else◌, lookup, none, some, true, ◌||◌, ◌∷◌,
}
use janux.Policy.{Policy, JwtData, CanAccess, Request, can_access}

-- `DashMap<domain, DashMap<role, Vec<Policy>>>`
abbrev pub RoleMap : Type 0
RoleMap = List (Text × List Policy)

abbrev pub PolicyCache : Type 0
PolicyCache = List (Text × RoleMap)

-- The two variables of the loops.
pub record Permit : Type 0 where
  pub permitted : Option Bool
  pub expect_mfa : Bool

abbrev pub or_permit : Option Bool → Option Bool
or_permit none = some true
or_permit (some b) = some b

-- `true` beside the result is `break 'outer`.
unfoldable pub scan_policies : (Policy → Option CanAccess) → List Policy → Permit → Permit × Bool
scan_policies f [] v = (v, false)
scan_policies f (p ∷ ps) v = elim (f p) [
  | none ↦ scan_policies f ps v
  | some tmp ↦
      let expects = v.expect_mfa || tmp.expect_mfa in
      let rest =
        scan_policies f ps (record { permitted = or_permit v.permitted; expect_mfa = expects }) in
      if tmp.can_access
      then rest
      else (record { permitted = some false; expect_mfa = expects }, true)
]

unfoldable pub scan_roles : (Policy → Option CanAccess) → RoleMap → List Text → Permit → Permit
scan_roles f m [] v = v
scan_roles f m (r ∷ rs) v = elim (lookup r m) [
  | none ↦ scan_roles f m rs v
  | some ps ↦
      let (v', stop) = scan_policies f ps v in
      let rest = scan_roles f m rs v' in if stop then v' else rest
]

abbrev pub is_permitted : Option Bool → Bool
is_permitted none = false
is_permitted (some b) = b

-- The pair `(can_access, expect_mfa)` for a token payload that carries roles.
unfoldable pub decide : (Text → Text) → PolicyCache → Text → JwtData → Request → CanAccess
decide low cache dom jwt req = elim (lookup dom cache) [
  | none ↦ record { can_access = false; expect_mfa = false }
  | some m ↦
      let v =
        scan_roles (λ p. can_access low p dom jwt req) m jwt.roles
          (record { permitted = none; expect_mfa = false }) in
      record { can_access = is_permitted v.permitted; expect_mfa = v.expect_mfa }
]
