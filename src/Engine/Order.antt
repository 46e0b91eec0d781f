-- ===== src/Engine/Order.antt =====
-- What does not change the engine's verdict, what a granted request rests on, and the MFA signal.
use mathlib.Core.Path.{fun_ext}
use janux.Common.{
  Bool, Bool-ext, In, In-all, In-any, In-append, In-append_left, In-append_right, In-contains, List,
  Option, Text, [], all, all-In, any, any-In, chars, contains, contains-In, false, inl, inr,
  is_some, length, lookup, none, refl, some, subst, sym, true, ◌&&◌, ◌<◌, ◌∙◌, ◌∷◌, ◌≡◌,
}
use janux.Policy.{Policy, JwtData, CanAccess, Request, can_access}
use janux.Policy.Matching.{InScope, can_access-roles, granting_row}
use janux.Engine.{RoleMap, PolicyCache, decide}
use janux.Engine.Decision.{rows_of, candidates, grants, allowed_by, decide-can_access}

-- Two hash sets of names are equal when they have the same members.
abbrev pub SameNames : List Text → List Text → Type 0
SameNames xs ys = (s : Text) → contains s xs ≡ contains s ys

and_left : (a b : Bool) → (a && b) ≡ true → a ≡ true
and_left true b e = refl
and_left false b e = cc

and_right : (a b : Bool) → (a && b) ≡ true → b ≡ true
and_right true b e = e
and_right false b e = cc

some_of : (o : Option CanAccess) → is_some o ≡ true → (c : CanAccess) × (o ≡ some c)
some_of none e = cc
some_of (some c) e = (c, refl)

candidates-role :
    (m : RoleMap) (rs : List Text) (p : Policy)
    → In p (candidates m rs)
    → (r : Text) × In r rs × In p (rows_of (lookup r m))
candidates-role m [] p i = absurd i
candidates-role m (r ∷ rs) p i = elim (In-append p (rows_of (lookup r m)) (candidates m rs) i) [
  | inl j ↦ (r, inl refl, j)
  | inr j ↦ let (s, k, l) = candidates-role m rs p j in (s, inr k, l)
]

role-candidates :
    (m : RoleMap) (rs : List Text) (p : Policy) (r : Text)
    → In r rs
    → In p (rows_of (lookup r m))
    → In p (candidates m rs)
role-candidates m [] p r i j = absurd i
role-candidates m (s ∷ rs) p r (inl e) j =
    In-append_left p (rows_of (lookup s m)) (candidates m rs)
      (subst (λ t. In p (rows_of (lookup t m))) e j)
role-candidates m (s ∷ rs) p r (inr i) j =
    In-append_right p (rows_of (lookup s m)) (candidates m rs) (role-candidates m rs p r i j)

candidates-same :
    (m : RoleMap) (rs ts : List Text) (p : Policy)
    → SameNames rs ts
    → In p (candidates m rs)
    → In p (candidates m ts)
candidates-same m rs ts p same i =
    let (r, j, k) = candidates-role m rs p i in
    role-candidates m ts p r (contains-In r ts (sym (same r) ∙ In-contains r rs j)) k

any-same :
    (q : Policy → Bool) (m : RoleMap) (rs ts : List Text)
    → SameNames rs ts
    → any q (candidates m rs) ≡ any q (candidates m ts)
any-same q m rs ts same = Bool-ext _ _ (forward rs ts same) (forward ts rs (λ s. sym (same s)))
  where
    forward :
        (xs ys : List Text)
        → SameNames xs ys
        → any q (candidates m xs) ≡ true
        → any q (candidates m ys) ≡ true
    forward xs ys h e =
        let (p, i, k) = any-In q (candidates m xs) e in
        In-any q p (candidates m ys) (candidates-same m xs ys p h i) k

all-same :
    (q : Policy → Bool) (m : RoleMap) (rs ts : List Text)
    → SameNames rs ts
    → all q (candidates m rs) ≡ all q (candidates m ts)
all-same q m rs ts same = Bool-ext _ _ (forward rs ts same) (forward ts rs (λ s. sym (same s)))
  where
    forward :
        (xs ys : List Text)
        → SameNames xs ys
        → all q (candidates m xs) ≡ true
        → all q (candidates m ys) ≡ true
    forward xs ys h e =
        In-all q (candidates m ys)
          (λ p i. all-In q p (candidates m xs) e (candidates-same m ys xs p (λ s. sym (h s)) i))

allowed_by-same :
    (f : Policy → Option CanAccess) (o : Option RoleMap) (rs ts : List Text)
    → SameNames rs ts
    → allowed_by f rs o ≡ allowed_by f ts o
allowed_by-same f none rs ts same = refl
allowed_by-same f (some m) rs ts same =
    rw (any-same (λ p. is_some (f p)) m rs ts same, all-same (λ p. grants (f p)) m rs ts same)

-- A row behind a granting verdict.
granted_by :
    (f : Policy → Option CanAccess) (roles : List Text) (o : Option RoleMap)
    → allowed_by f roles o ≡ true
    → (m : RoleMap) × (r : Text) × (p : Policy) × (c : CanAccess) × (o ≡ some m)
      × In r roles
      × In p (rows_of (lookup r m))
      × (f p ≡ some c)
      × (c.can_access ≡ true)
granted_by f roles none e = cc
granted_by f roles (some m) e =
    let (p, i, k) = any-In (λ p. is_some (f p)) (candidates m roles) (and_left _ _ e) in
    let g = all-In (λ p. grants (f p)) p (candidates m roles) (and_right _ _ e) i in
    let (r, j, l) = candidates-role m roles p i in
    let (c, h) = some_of (f p) k in (m, r, p, c, refl, j, l, h, rw h at g)

module _ (low : Text → Text) (cache : PolicyCache) (dom : Text) (jwt : JwtData)
    (req : Request) where
  outcome_roles :
      (us : List Text)
      → ◌≡◌ {A = Policy → Option CanAccess}
          (λ p. can_access low p dom (record jwt { roles = us }) req)
          (λ p. can_access low p dom jwt req)
  outcome_roles us = fun_ext (λ p. can_access-roles low p dom jwt req us)

  -- Access does not depend on the order in which the token's roles are visited, nor on repetitions.
  pub decide-roles_order :
      (rs ts : List Text)
      → SameNames rs ts
      → (decide low cache dom (record jwt { roles = rs }) req).can_access
        ≡ (decide low cache dom (record jwt { roles = ts }) req).can_access
  decide-roles_order rs ts same =
      decide-can_access low cache dom (record jwt { roles = rs }) req
      ∙ rw (outcome_roles rs, outcome_roles ts)
          (allowed_by-same (λ p. can_access low p dom jwt req) (lookup dom cache) rs ts same)
      ∙ sym (decide-can_access low cache dom (record jwt { roles = ts }) req)

  -- A granted request rests on a cached row of one of the token's roles that is in scope, allows,
  -- and has its MFA demand met.
  pub decide-granted :
      (decide low cache dom jwt req).can_access ≡ true
      → (m : RoleMap) × (r : Text) × (p : Policy) × (lookup dom cache ≡ some m)
        × In r jwt.roles
        × In p (rows_of (lookup r m))
        × InScope p dom jwt req
        × (p.allowed ≡ true)
        × (p.mfa ≡ true → (contains (chars "totp") jwt.mfa ≡ true) × (1 < length jwt.mfa))
  decide-granted e =
      let (m, r, p, c, o, i, j, f, g) =
        granted_by (λ p. can_access low p dom jwt req) jwt.roles (lookup dom cache)
          (sym (decide-can_access low cache dom jwt req) ∙ e) in
      let (s, a, b, _) = granting_row low p dom jwt req c f g in (m, r, p, o, i, j, s, a, b)
