-- ===== src/Oidc/Scopes.antt =====
-- src/oidc.rs: the scopes of a request, of a client and of a grant.
use janux.Common.{
  Bool, In, In-all, In-contains, List, Option, Text, [], all, all-In, any, arith, chars, contains,
  contains-In, if◌then◌else◌, is_empty, is_whitespace, none, not, push_front, refl, retain, some,
  text_eq, text_eq_iff, true, ◌&&◌, ◌↔◌, ◌∷◌, ◌≡◌,
}

-- `str::split(char::is_whitespace)`: the pieces between the separators, empty ones included.
abbrev pub pieces : Text → List Text
pieces [] = [] ∷ []
pieces (c ∷ cs) = let rest = pieces cs in if is_whitespace c then [] ∷ rest else push_front c rest

-- `str::split_whitespace`, which leaves out the empty pieces.
unfoldable pub split_whitespace : Text → List Text
split_whitespace s = retain (λ piece. not (is_empty piece)) (pieces s)

unfoldable pub scopes_cover : Text → Text → Bool
unfolding split_whitespace
scopes_cover granted requested =
    all (λ s. contains s (split_whitespace granted)) (split_whitespace requested)

-- `scope.split_whitespace().any(|s| s == wanted)`
unfoldable pub has_scope : Text → Text → Bool
unfolding split_whitespace
has_scope wanted scope = any (λ s. text_eq s wanted) (split_whitespace scope)

unfoldable pub known_scopes : List Text
known_scopes = chars "openid" ∷ chars "profile" ∷ chars "email" ∷ chars "offline_access" ∷ []

pub data ScopeFault : Type 0 where
  unknown_scope unregistered_scope : Text → ScopeFault

-- The loop over the requested scopes; `none` is `Ok(())`.
abbrev pub check_scopes : List Text → List Text → Option ScopeFault
check_scopes [] registered = none
check_scopes (s ∷ requested) registered =
    let rest = check_scopes requested registered in
    if not (contains s known_scopes)
    then some (unknown_scope s)
    else if not (any (λ r. text_eq r s) registered)
    then some (unregistered_scope s)
    else rest

unfoldable pub validate_requested_scope : Text → List Text → Option ScopeFault
unfolding split_whitespace
validate_requested_scope requested registered = check_scopes (split_whitespace requested) registered

unfoldable pub scope_label : Text → Text
scope_label scope =
    if text_eq scope (chars "openid")
    then chars "Sign in with your identity"
    else if text_eq scope (chars "profile")
    then chars "Read your profile information"
    else if text_eq scope (chars "email")
    then chars "Read your email address"
    else if text_eq scope (chars "offline_access")
    then chars "Retain access while you are not present"
    else chars "Additional access"

-- The scopes of a text, each as a member of it.
abbrev pub Scope : Text → Text → Type 0
Scope s scope = In s (split_whitespace scope)

-- A grant covers a request exactly when every scope of the request is one of the grant.
pub scopes_cover_iff :
    (granted requested : Text)
    → (scopes_cover granted requested ≡ true) ↔ ((s : Text) → Scope s requested → Scope s granted)
unfolding scopes_cover split_whitespace
scopes_cover_iff granted requested = (
  λ e s h.
      contains-In s (split_whitespace granted)
        (all-In (λ r. contains r (split_whitespace granted)) s (split_whitespace requested) e h),
  λ f.
      In-all (λ r. contains r (split_whitespace granted)) (split_whitespace requested)
        (λ s h. In-contains s (split_whitespace granted) (f s h)),
)

-- Covering is transitive, so a chain of grants that each narrow the one before stays within the
-- first.
pub scopes_cover_trans :
    (a b c : Text) → scopes_cover a b ≡ true → scopes_cover b c ≡ true → scopes_cover a c ≡ true
scopes_cover_trans a b c ab bc =
    (scopes_cover_iff a c).1
      (λ s h. (scopes_cover_iff a b).0 ab s ((scopes_cover_iff b c).0 bc s h))

pub scopes_cover_refl : (a : Text) → scopes_cover a a ≡ true
scopes_cover_refl a = (scopes_cover_iff a a).1 (λ s h. h)

any-contains : (s : Text) (ts : List Text) → any (λ r. text_eq r s) ts ≡ contains s ts
any-contains s [] = refl
any-contains s (t ∷ ts) = ground (arith, any-contains s ts, text_eq_iff t s, text_eq_iff s t)

module _ (registered : List Text) where
  abbrev admissible : Text → Bool
  admissible s = contains s known_scopes && contains s registered

  check_scopes-all :
      (requested : List Text)
      → (check_scopes requested registered ≡ none) ↔ (all admissible requested ≡ true)
  check_scopes-all [] = (λ _. refl, λ _. refl)
  check_scopes-all (r ∷ requested) =
      ground (arith, any-contains r registered, check_scopes-all requested)

  and-true : (a b : Bool) → (a && b) ≡ true → (a ≡ true) × (b ≡ true)
  and-true a b e = ground (arith, e)

  check_scopes_iff :
      (requested : List Text)
      → (check_scopes requested registered ≡ none)
        ↔ ((s : Text) → In s requested → In s known_scopes × In s registered)
  check_scopes_iff requested = (
    λ e s i.
        let h =
          and-true (contains s known_scopes) (contains s registered)
            (all-In admissible s requested ((check_scopes-all requested).0 e) i) in
        (contains-In s known_scopes h.0, contains-In s registered h.1),
    λ f. (check_scopes-all requested).1 (
        In-all admissible requested (λ s i.
          let h = f s i in rw (In-contains s known_scopes h.0, In-contains s registered h.1) refl)),
  )

-- A request passes exactly when each of its scopes is in the server's vocabulary and registered for
-- the client.
pub validate_requested_scope_iff :
    (requested : Text) (registered : List Text)
    → (validate_requested_scope requested registered ≡ none)
      ↔ ((s : Text) → Scope s requested → In s known_scopes × In s registered)
unfolding validate_requested_scope split_whitespace
validate_requested_scope_iff requested registered =
    check_scopes_iff registered (split_whitespace requested)
