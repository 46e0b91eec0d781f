-- ===== src/Policy/Matching.antt =====
-- When one row of src/policy.rs applies to a request, and what it then says.
use janux.Common.{
  ==_iff, Bool, List, Option, Text, [], ap, arith, chars, contains, false, if◌then◌else◌, inl,
  is_empty, is_some, join-split, length, none, not, refl, some, split, sym, text_eq, text_eq_iff,
  true, ℕ, ◌&&◌, ◌<◌, ◌==◌, ◌||◌, ◌↔◌, ◌∙◌, ◌∷◌, ◌≡◌, ◌≢◌, ◌⊎◌,
}
use janux.Policy.Segments.{Covers, resource_matches_path_iff}
use janux.Policy.{
  HttpMethod, get, post, put, options, delete, patch, connect, head, trace, variant, method_eq,
  action_eq, Source, SourceResolver, TargetResolver, Policy, JwtData, CanAccess, Request,
  resource_matches_path, resolve_source, resolve_target, source_accepts, resolvers_match, matched,
  verdict, can_access,
}

method_of : ℕ → HttpMethod
method_of n =
    if n == 1
    then get
    else if n == 2
    then post
    else if n == 3
    then put
    else if n == 4
    then options
    else if n == 5
    then delete
    else if n == 6
    then patch
    else if n == 7
    then connect
    else if n == 8
    then head
    else trace

method_of-variant : (a : HttpMethod) → method_of (variant a) ≡ a
unfolding method_of
method_of-variant get = refl
method_of-variant _ = refl

pub method_eq_iff : (a b : HttpMethod) → (method_eq a b ≡ true) ↔ (a ≡ b)
method_eq_iff a b = (
  λ e.
      sym (method_of-variant a)
      ∙ (ap method_of ((==_iff (variant a) (variant b)).0 e) ∙ method_of-variant b),
  λ e. (==_iff (variant a) (variant b)).1 (ap variant e),
)

-- The row is one of this tenant domain and of this method.
pub record InScope (p : Policy) (dom : Text) (jwt : JwtData) (req : Request) : Type 0 where
  pub token_domain : dom ≡ jwt.domain
  pub row_domain : dom ≡ p.domain_id
  pub method : (p.action ≡ none) ⊎ (p.action ≡ some req.act)

action_accepts :
    (act : HttpMethod) (o : Option HttpMethod)
    → ((action_eq (some act) o || not (is_some o)) ≡ true) ↔ ((o ≡ none) ⊎ (o ≡ some act))
action_accepts act none = (λ _. inl refl, λ _. refl)
action_accepts act (some b) = ground (arith, method_eq_iff act b)

guards_iff :
    (s t u v : Text) (act : HttpMethod) (o : Option HttpMethod) (b : Bool)
    → ((if text_eq s t && text_eq u v && (action_eq (some act) o || not (is_some o))
          then b
          else false)
        ≡ true)
      ↔ ((s ≡ t) × (u ≡ v) × ((o ≡ none) ⊎ (o ≡ some act)) × (b ≡ true))
guards_iff s t u v act o b = ground (arith, text_eq_iff s t, text_eq_iff u v, action_accepts act o)

kept_iff : (b : Bool) (v : CanAccess) → is_some (if not b then none else some v) ≡ true → b ≡ true
kept_iff true v e = refl
kept_iff false v e = cc

kept : (b : Bool) (v : CanAccess) → b ≡ true → is_some (if not b then none else some v) ≡ true
kept true v e = refl
kept false v e = cc

-- What the two resolvers ask of the request, beyond the scope.
abbrev pub Agrees : (Text → Text) → SourceResolver → Policy → JwtData → Request → Type 0
Agrees low SourceResolver.nothing p jwt req = resolve_target low p req ≡ none
Agrees low SourceResolver.user p jwt req = resolve_target low p req ≡ some jwt.user
Agrees low SourceResolver.domain p jwt req = resolve_target low p req ≡ some jwt.domain
Agrees low SourceResolver.role p jwt req = resolve_target low p req ≡ some p.role_id

text_or_empty :
    (resource path : Text)
    → ((if is_empty resource then true else text_eq path resource) ≡ true)
      ↔ ((resource ≡ []) ⊎ (resource ≡ path))
text_or_empty [] path = (λ _. inl refl, λ _. refl)
text_or_empty (c ∷ cs) path = ground (arith, text_eq_iff path (c ∷ cs))

both_iff :
    (a b : Bool) (P : Type 0)
    → (b ≡ true) ↔ P
    → ((if a then b else false) ≡ true) ↔ ((a ≡ true) × P)
both_iff true b P h = (λ e. (refl, h.0 e), λ k. h.1 k.1)
both_iff false b P h = (λ e. cc, λ k. cc (k.0))

module _ (low : Text → Text) (p : Policy) (dom : Text) (jwt : JwtData) (req : Request) where
  pub applies_iff :
      (is_some (can_access low p dom jwt req) ≡ true)
      ↔ (InScope p dom jwt req × (resolvers_match low p.source p.target p jwt req ≡ true))
  unfolding can_access matched
  applies_iff =
      let g =
        guards_iff dom jwt.domain dom p.domain_id req.act p.action
          (resolvers_match low p.source p.target p jwt req) in
      (
        λ e.
            let (a, b, c, d) = g.0 (kept_iff _ (verdict p jwt) e) in
            (record { token_domain = a; row_domain = b; method = c }, d),
        λ h. kept _ (verdict p jwt) (g.1 (h.0.token_domain, h.0.row_domain, h.0.method, h.1)),
      )

  is_some_and_iff :
      (t : Option Text) (name : Text)
      → (source_accepts (some (Source.user name)) t ≡ true) ↔ (t ≡ some name)
  is_some_and_iff none name = (λ e. cc, λ e. cc)
  is_some_and_iff (some t) name = ground (arith, text_eq_iff t name)

  accepts_iff :
      (s : SourceResolver)
      → p.source ≡ s
      → (source_accepts (resolve_source p jwt) (resolve_target low p req) ≡ true)
        ↔ Agrees low s p jwt req
  unfolding resolve_source
  accepts_iff SourceResolver.nothing e = simp (e, resolve_source) (ground (arith))
  accepts_iff SourceResolver.user e =
      simp (e, resolve_source) (is_some_and_iff (resolve_target low p req) jwt.user)
  accepts_iff SourceResolver.domain e =
      simp (e, resolve_source) (is_some_and_iff (resolve_target low p req) jwt.domain)
  accepts_iff SourceResolver.role e =
      simp (e, resolve_source) (is_some_and_iff (resolve_target low p req) p.role_id)

  plain_match :
      (path : Text)
      → req.path ≡ split b'/' path
      → p.source ≡ SourceResolver.nothing
      → p.target ≡ TargetResolver.nothing
      → (resolvers_match low p.source p.target p jwt req ≡ true)
        ↔ ((p.resource ≡ []) ⊎ (p.resource ≡ path))
  plain_match path r s t = rw (s, t, r, join-split b'/' path) (text_or_empty p.resource path)

  resolving_match :
      (s : SourceResolver) (t : TargetResolver)
      → p.source ≡ s
      → ¬ ((s ≡ SourceResolver.nothing) × (t ≡ TargetResolver.nothing))
      → (resolvers_match low s t p jwt req ≡ true)
        ↔ ((resource_matches_path p.resource req.path ≡ true) × Agrees low s p jwt req)
  resolving_match SourceResolver.nothing TargetResolver.nothing e h = absurd (h (refl, refl))
  resolving_match SourceResolver.nothing (TargetResolver.from_path n) e h =
      both_iff _ _ _ (accepts_iff SourceResolver.nothing e)
  resolving_match SourceResolver.nothing _ e h =
      both_iff _ _ _ (accepts_iff SourceResolver.nothing e)
  resolving_match SourceResolver.user _ e h = both_iff _ _ _ (accepts_iff SourceResolver.user e)
  resolving_match SourceResolver.domain _ e h = both_iff _ _ _ (accepts_iff SourceResolver.domain e)
  resolving_match SourceResolver.role _ e h = both_iff _ _ _ (accepts_iff SourceResolver.role e)

  -- A row without resolvers applies to a request exactly when the tenant domain of the request, of
  -- the token and of the row are one, the row's method is the request's or absent, and the row's
  -- resource is empty or is the request's path, letter by letter: here a template names no parameter.
  pub plain_row_applies :
      (path : Text)
      → req.path ≡ split b'/' path
      → p.source ≡ SourceResolver.nothing
      → p.target ≡ TargetResolver.nothing
      → (is_some (can_access low p dom jwt req) ≡ true)
        ↔ (InScope p dom jwt req × ((p.resource ≡ []) ⊎ (p.resource ≡ path)))
  plain_row_applies path r s t =
      let m = plain_match path r s t in
      (λ e. let (a, b) = applies_iff.0 e in (a, m.0 b), λ h. applies_iff.1 (h.0, m.1 h.1))

  -- A row with a source or a target resolver applies exactly when the domains and the method fit,
  -- its resource template is empty or covers the path segment by segment, and the target that the
  -- request names is the source: the token's user, the token's domain, the row's role, or no target
  -- at all where the source resolver is absent.
  pub resolver_row_applies :
      ¬ ((p.source ≡ SourceResolver.nothing) × (p.target ≡ TargetResolver.nothing))
      → (is_some (can_access low p dom jwt req) ≡ true) ↔ (
          InScope p dom jwt req
          × ((p.resource ≡ []) ⊎ ((p.resource ≢ []) × Covers (split b'/' p.resource) req.path))
          × Agrees low p.source p jwt req)
  resolver_row_applies h =
      let m = resolving_match p.source p.target refl h in
      let c = resource_matches_path_iff p.resource req.path in
      (
        λ e. let (a, b) = applies_iff.0 e in let (x, y) = m.0 b in (a, c.0 x, y),
        λ k. applies_iff.1 (k.0, m.1 (c.1 k.1, k.2)),
      )

  -- The roles of the token play no part in one row's verdict.
  pub can_access-roles :
      (roles : List Text)
      → can_access low p dom (record jwt { roles = roles }) req ≡ can_access low p dom jwt req
  unfolding can_access matched resolve_source verdict
  can_access-roles roles = ground arith

  verdict_grants :
      (verdict p jwt).can_access ≡ true
      → (p.allowed ≡ true)
        × (p.mfa ≡ true → (contains (chars "totp") jwt.mfa ≡ true) × (1 < length jwt.mfa))
        × ((verdict p jwt).expect_mfa ≡ false)
  unfolding verdict
  verdict_grants g = ground arith

  can_access-verdict : (c : CanAccess) → can_access low p dom jwt req ≡ some c → verdict p jwt ≡ c
  unfolding can_access
  can_access-verdict c e = ground arith

  -- A row that grants is an allow, and where it asks for MFA the token has "totp" and another
  -- factor; it then asks for nothing more.
  pub granting_row :
      (c : CanAccess)
      → can_access low p dom jwt req ≡ some c
      → c.can_access ≡ true
      → InScope p dom jwt req
        × (p.allowed ≡ true)
        × (p.mfa ≡ true → (contains (chars "totp") jwt.mfa ≡ true) × (1 < length jwt.mfa))
        × (c.expect_mfa ≡ false)
  granting_row c e g =
      let v = can_access-verdict c e in
      let (a, b, d) = verdict_grants (ap (λ x. x.can_access) v ∙ g) in
      ((applies_iff.0 (rw e)).0, a, b, ap (λ x. x.expect_mfa) (sym v) ∙ d)
