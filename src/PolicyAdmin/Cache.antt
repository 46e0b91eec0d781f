-- ===== src/PolicyAdmin/Cache.antt =====
-- What the policy cache of src/policy.rs holds for a domain and a role after each change.
use janux.Common.{
  Bool, List, Option, Text, [], arith, if◌then◌else◌, is_empty, lookup, none, not, retain, some,
  text_eq, text_eq_iff, ◌&&◌, ◌++◌, ◌∷◌, ◌≡◌,
}
use janux.Policy.{Policy, HttpMethod, action_eq}
use janux.Engine.{PolicyCache, RoleMap}
use janux.Engine.Decision.{rows_of}
use janux.Roles.{remove_role_rows}
use janux.PolicyAdmin.{push_role, push_policy, evict_role, evict_policy}

abbrev pub map_or_none : Option RoleMap → RoleMap
map_or_none none = []
map_or_none (some m) = m

abbrev pub in_map : RoleMap → Text → List Policy
in_map m r = rows_of (lookup r m)

-- The rows cached for a domain and a role; none where either has no entry.
abbrev pub cached : PolicyCache → Text → Text → List Policy
cached c d r = in_map (map_or_none (lookup d c)) r

pub cached-found :
    (c : PolicyCache) (d r : Text) (m : RoleMap)
    → lookup d c ≡ some m
    → cached c d r ≡ rows_of (lookup r m)
cached-found c d r m e = rw e

in_map-push :
    (r : Text) (p : Policy) (m : RoleMap) (s : Text)
    → in_map (push_role r p m) s ≡ (if text_eq r s then in_map m s ++ (p ∷ []) else in_map m s)
unfolding push_role
in_map-push r p [] s = ground arith
in_map-push r p ((k, ps) ∷ m) s =
    ground (arith, text_eq_iff k r, text_eq_iff k s, text_eq_iff r s, in_map-push r p m s)

pub cached-push :
    (d r : Text) (p : Policy) (c : PolicyCache) (e s : Text)
    → cached (push_policy d r p c) e s
      ≡ (if text_eq d e && text_eq r s then cached c e s ++ (p ∷ []) else cached c e s)
unfolding push_policy
cached-push d r p [] e s = ground (arith, in_map-push r p [] s)
cached-push d r p ((k, m) ∷ c) e s = ground (
  arith,
  text_eq_iff k d,
  text_eq_iff k e,
  text_eq_iff d e,
  in_map-push r p m s,
  cached-push d r p c e s,
)

lookup-removed :
    (r : Text) (m : RoleMap) (s : Text)
    → lookup s (retain (λ e. not (text_eq e.0 r)) m) ≡ (if text_eq r s then none else lookup s m)
lookup-removed r [] s = ground arith
lookup-removed r ((k, ps) ∷ m) s =
    ground (arith, text_eq_iff k r, text_eq_iff k s, text_eq_iff r s, lookup-removed r m s)

-- The rows that an eviction leaves.
abbrev pub stays : Text → Option HttpMethod → Policy → Bool
stays resource action p = not (action_eq p.action action && text_eq p.resource resource)

-- The entry of `r` with the rows that stay, or without the entry.
in_map-seated :
    (r : Text) (kept : List Policy) (m : RoleMap) (s : Text)
    → in_map (if is_empty kept then retain (λ e. not (text_eq e.0 r)) m else (r, kept) ∷ m) s
      ≡ (if text_eq r s then kept else in_map m s)
in_map-seated r [] m s = ground (arith, lookup-removed r m s)
in_map-seated r (p ∷ ps) m s = ground arith

in_map-evict :
    (r resource : Text) (action : Option HttpMethod) (m : RoleMap) (s : Text)
    → in_map (evict_role r resource action m) s
      ≡ (if text_eq r s then retain (stays resource action) (in_map m s) else in_map m s)
unfolding evict_role
in_map-evict r resource action [] s = ground arith
in_map-evict r resource action ((k, ps) ∷ m) s = ground (
  arith,
  text_eq_iff k r,
  text_eq_iff k s,
  text_eq_iff r s,
  in_map-evict r resource action m s,
  in_map-seated k (retain (stays resource action) ps) m s,
)

pub cached-evict :
    (d r resource : Text) (action : Option HttpMethod) (c : PolicyCache) (e s : Text)
    → cached (evict_policy d r resource action c) e s ≡ (
        if text_eq d e && text_eq r s
        then retain (stays resource action) (cached c e s)
        else cached c e s)
unfolding evict_policy
cached-evict d r resource action [] e s = ground arith
cached-evict d r resource action ((k, m) ∷ c) e s = ground (
  arith,
  text_eq_iff k d,
  text_eq_iff k e,
  text_eq_iff d e,
  in_map-evict r resource action m s,
  cached-evict d r resource action c e s,
)

pub cached-remove_role_rows :
    (name : Text) (c : PolicyCache) (d r : Text)
    → cached (remove_role_rows name c) d r ≡ (if text_eq name r then [] else cached c d r)
unfolding remove_role_rows
cached-remove_role_rows name [] d r = ground arith
cached-remove_role_rows name ((k, m) ∷ c) d r =
    ground (arith, text_eq_iff k d, lookup-removed name m r, cached-remove_role_rows name c d r)
