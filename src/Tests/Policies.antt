-- ===== src/Tests/Policies.antt =====
-- Runs of the theorems on the engine .
use janux.Common.{
  Bool, In, Text, [], chars, contains, false, length, lookup, refl, some, split, text_eq, true, ◌<◌,
  ◌||◌, ◌∷◌, ◌≡◌,
}
use janux.Policy.{
  Policy, Request, SourceResolver, TargetResolver, can_access, matched, resource_matches_path,
  resolve_source, resolve_target, capture, verdict,
}
use janux.Policy.Matching.{InScope}
use janux.Engine.{RoleMap, PolicyCache, decide, scan_policies, scan_roles}
use janux.Engine.Decision.{allowed_by, rows_of, decide-can_access}
use janux.Engine.Order.{decide-roles_order, decide-granted}
use janux.Engine.Mfa.{expect_mfa_order, first_answer}
use janux.Tests.{lower, cache, own_docs, bob, get_docs}

decide-can_access_example :
    (decide lower cache (chars "a.io") bob get_docs).can_access
    ≡ allowed_by
        (λ p. can_access lower p (chars "a.io") bob get_docs)
        bob.roles
        (lookup (chars "a.io") cache)
decide-can_access_example = decide-can_access lower cache (chars "a.io") bob get_docs

own_docs_outcome :
    can_access lower own_docs (chars "a.io") bob get_docs
    ≡ some (record { can_access = true; expect_mfa = false })
unfolding can_access matched resource_matches_path resolve_source resolve_target capture verdict
    split
own_docs_outcome = refl

abbrev plain_row : Policy
plain_row = record own_docs {
  source = SourceResolver.nothing;
  target = TargetResolver.nothing;
  resource = chars "/docs";
}

abbrev get_all : Request
get_all = record get_docs { path = [] ∷ chars "docs" ∷ [] }

all_docs_path : get_all.path ≡ split b'/' (chars "/docs")
unfolding split
all_docs_path = refl

bob_reads : (decide lower cache (chars "a.io") bob get_docs).can_access ≡ true
unfolding decide scan_roles scan_policies can_access matched resource_matches_path resolve_source
    resolve_target capture verdict split
bob_reads = refl

decide-granted_example :
    (m : RoleMap) × (r : Text) × (p : Policy) × (lookup (chars "a.io") cache ≡ some m)
    × In r bob.roles
    × In p (rows_of (lookup r m))
    × InScope p (chars "a.io") bob get_docs
    × (p.allowed ≡ true)
    × (p.mfa ≡ true → (contains (chars "totp") bob.mfa ≡ true) × (1 < length bob.mfa))
decide-granted_example = decide-granted lower cache (chars "a.io") bob get_docs bob_reads

decide-roles_order_example :
    (decide lower cache
      (chars "a.io")
      (record bob { roles = chars "editor" ∷ chars "guest" ∷ [] })
      get_docs).can_access
    ≡ (decide lower cache
        (chars "a.io")
        (record bob { roles = chars "guest" ∷ chars "editor" ∷ [] })
        get_docs).can_access
decide-roles_order_example =
    decide-roles_order lower cache (chars "a.io") bob get_docs (chars "editor" ∷ chars "guest" ∷ [])
      (chars "guest" ∷ chars "editor" ∷ [])
      (λ r. swap (text_eq r (chars "editor")) (text_eq r (chars "guest")))
  where
    swap : (a b : Bool) → (a || (b || false)) ≡ (b || (a || false))
    swap true true = refl
    swap true false = refl
    swap false true = refl
    swap false false = refl

abbrev refusing : Policy
refusing = record own_docs { allowed = false }

abbrev demanding : Policy
demanding = record own_docs { mfa = true }

abbrev elsewhere : Policy
elsewhere = record own_docs { resource = chars "/elsewhere" }

abbrev two_roles : PolicyCache
two_roles =
    (
      chars "a.io",
      (chars "editor", elsewhere ∷ refusing ∷ demanding ∷ [])
          ∷ (chars "guest", demanding ∷ [])
          ∷ [],
    )
    ∷ []

first_refuses :
    first_answer
      (λ p. can_access lower p (chars "a.io") bob get_docs)
      (elsewhere ∷ refusing ∷ demanding ∷ [])
    ≡ some (record { can_access = false; expect_mfa = false })
unfolding first_answer can_access matched resource_matches_path resolve_source resolve_target
    capture verdict split
first_refuses = refl

first_demands :
    first_answer (λ p. can_access lower p (chars "a.io") bob get_docs) (demanding ∷ [])
    ≡ some (record { can_access = false; expect_mfa = true })
unfolding first_answer can_access matched resource_matches_path resolve_source resolve_target
    capture verdict split
first_demands = refl

expect_mfa_order_example :
    (decide lower two_roles
        (chars "a.io")
        (record bob { roles = chars "editor" ∷ chars "guest" ∷ chars "admin" ∷ [] })
        get_docs
      ≡ record { can_access = false; expect_mfa = false })
    × (decide lower two_roles
          (chars "a.io")
          (record bob { roles = chars "guest" ∷ chars "editor" ∷ chars "admin" ∷ [] })
          get_docs
        ≡ record { can_access = false; expect_mfa = true })
expect_mfa_order_example =
    expect_mfa_order lower two_roles (chars "a.io") bob get_docs (chars "editor") (chars "guest")
      (chars "admin" ∷ [])
      ((chars "editor", elsewhere ∷ refusing ∷ demanding ∷ [])
        ∷ (chars "guest", demanding ∷ [])
        ∷ [])
      (elsewhere ∷ refusing ∷ demanding ∷ []) (demanding ∷ []) refl refl refl first_refuses
      first_demands
