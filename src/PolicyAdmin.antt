-- ===== src/PolicyAdmin.antt =====
-- src/policy.rs: loading the policy cache, and creating and deleting policies in the table and in
-- the cache. What the database says of a new row (its unique key) is a parameter, and so is its id.
pub mod Cache
pub mod Mirror
pub mod Kept
pub mod Revoked
use janux.Common.{
  Bool, List, Option, Text, [], all, if◌then◌else◌, is_empty, is_whitespace, not, retain, text_eq,
  ℕ, ◌&&◌, ◌++◌, ◌==◌, ◌∷◌,
}
use janux.Policy.{Policy, JwtData, HttpMethod, SourceResolver, TargetResolver, method_eq, action_eq}
use janux.Engine.{PolicyCache, RoleMap}
use janux.Tenant.{
  Role, Tenant, Caller, Error, forbidden, not_found, duplicate, Result, ok, err, ◌>>=◌, ◌>>◌, role,
}
use janux.Roles.{require_below}

-- `if resource.trim().is_empty() { String::new() } else { resource.to_string() }`
unfoldable pub stored_resource : Text → Text
stored_resource resource = if all is_whitespace resource then [] else resource

-- `entry(role).or_default().push(row)`
unfoldable pub push_role : Text → Policy → RoleMap → RoleMap
push_role r p [] = (r, p ∷ []) ∷ []
push_role r p ((s, ps) ∷ m) =
    if text_eq s r then (s, ps ++ (p ∷ [])) ∷ m else (s, ps) ∷ push_role r p m

-- `entry(domain).or_default()` before it
unfoldable pub push_policy : Text → Text → Policy → PolicyCache → PolicyCache
push_policy d r p [] = (d, push_role r p []) ∷ []
push_policy d r p ((e, m) ∷ rest) =
    if text_eq e d then (e, push_role r p m) ∷ rest else (e, m) ∷ push_policy d r p rest

unfoldable pub load_into : PolicyCache → List Policy → PolicyCache
load_into cache [] = cache
load_into cache (p ∷ ps) = load_into (push_policy p.domain_id p.role_id p cache) ps

-- The cache that a tenant starts with.
unfoldable pub all_policy_entries : List Policy → PolicyCache
unfolding load_into
all_policy_entries rows = load_into [] rows

pub record NewPolicy : Type 0 where
  pub domain : Text
  pub action : Option HttpMethod
  pub resource : Text
  pub role_name : Text
  pub source : SourceResolver
  pub target : TargetResolver
  pub mfa : Bool
  pub allowed : Bool

abbrev pub row_of : ℕ → NewPolicy → Role → Policy
row_of fresh n r = record {
  id = fresh;
  domain_id = n.domain;
  action = n.action;
  resource = stored_resource n.resource;
  role_id = r.id;
  source = n.source;
  target = n.target;
  mfa = n.mfa;
  allowed = n.allowed;
}

unfoldable pub policy_create :
    (List Policy → Policy → Bool) → ℕ → Tenant → Caller → NewPolicy → Result (Tenant × Policy)
policy_create accepts fresh t caller n = do
  r ← role t n.role_name
  require_below t caller r
  let p = row_of fresh n r
  if accepts t.policy_rows p
      then ok (
        record t {
          policy_rows = p ∷ t.policy_rows;
          policies = push_policy n.domain p.role_id p t.policies;
        },
        p,
      )
      else err duplicate

-- The row has this resource and this action.
abbrev pub is_target : Text → Option HttpMethod → Policy → Bool
is_target resource action p = text_eq p.resource resource && action_eq p.action action

-- The loop over the candidates, deleting by primary key.
unfoldable pub delete_rows : Text → Option HttpMethod → List Policy → List Policy → List Policy
delete_rows resource action [] rows = rows
delete_rows resource action (c ∷ cs) rows =
    delete_rows resource action cs
      (if is_target resource action c then retain (λ p. not (p.id == c.id)) rows else rows)

-- The occupied entry of the role: the rows that stay, and no entry when none stays.
unfoldable pub evict_role : Text → Text → Option HttpMethod → RoleMap → RoleMap
evict_role r resource action [] = []
evict_role r resource action ((s, ps) ∷ m) =
    if text_eq s r
    then (let kept =
          retain (λ p. not (action_eq p.action action && text_eq p.resource resource)) ps in
        if is_empty kept then retain (λ e. not (text_eq e.0 r)) m else (s, kept) ∷ m)
    else (s, ps) ∷ evict_role r resource action m

unfoldable pub evict_policy : Text → Text → Text → Option HttpMethod → PolicyCache → PolicyCache
evict_policy d r resource action [] = []
evict_policy d r resource action ((e, m) ∷ rest) =
    if text_eq e d
    then (e, evict_role r resource action m) ∷ rest
    else (e, m) ∷ evict_policy d r resource action rest

unfoldable pub policy_delete :
    Tenant → Caller → Text → Text → Option HttpMethod → Text → Result Tenant
policy_delete t caller dom resource action role_name = do
  let stored = stored_resource resource
  r ← role t role_name
  require_below t caller r
  let candidates = retain (λ p. text_eq p.domain_id dom && text_eq p.role_id r.id) t.policy_rows
  ok (record t {
    policy_rows = delete_rows stored action candidates t.policy_rows;
    policies = evict_policy dom r.id stored action t.policies;
  })
