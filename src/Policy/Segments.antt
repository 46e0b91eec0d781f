-- ===== src/Policy/Segments.antt =====
-- Templates of paths in src/policy.rs: `{param}` segments and the match segment by segment.
use janux.Common.{
  List, Text, [], ap, arith, ends_with, inl, inr, length, refl, split, text_eq_iff, true, ℕ, ◌&&◌,
  ◌++◌, ◌==◌, ◌↔◌, ◌∷◌, ◌≡◌, ◌≢◌, ◌⊎◌,
}
use janux.Policy.{is_param, segments_match, resource_matches_path}

ends_with_prefix : (c : ℕ) (s : Text) → ends_with c s ≡ true → (pre : Text) × (s ≡ pre ++ (c ∷ []))
ends_with_prefix c [] e = cc
ends_with_prefix c (x ∷ []) e = ([], ground (arith, e))
ends_with_prefix c (x ∷ y ∷ ys) e =
    let (pre, h) = ends_with_prefix c (y ∷ ys) e in (x ∷ pre, ap (λ t. x ∷ t) h)

ends_with-append : (c : ℕ) (pre : Text) → ends_with c (pre ++ (c ∷ [])) ≡ true
ends_with-append c [] = ground arith
ends_with-append c (x ∷ []) = ground arith
ends_with-append c (x ∷ y ∷ ys) = ends_with-append c (y ∷ ys)

one_code : (x : ℕ) (name : Text) → ◌≡◌ {A = Text} (x ∷ []) (b'{' ∷ (name ++ (b'}' ∷ []))) → ⊥
one_code x [] e = cc
one_code x (y ∷ ys) e = cc

-- A `{param}` segment, whatever its name.
pub is_param_iff :
    (r : Text) → (is_param r ≡ true) ↔ ((name : Text) × (r ≡ b'{' ∷ (name ++ (b'}' ∷ []))))
is_param_iff [] = (λ e. cc, λ h. cc (h.1))
is_param_iff (x ∷ []) = (λ e. absurd (ground arith), λ h. absurd (one_code x h.0 h.1))
is_param_iff (x ∷ y ∷ ys) = (
  λ e.
      let (name, h) = ends_with_prefix b'}' (y ∷ ys) (ground (arith, e)) in
      (name, ground (arith, e, h)),
  λ h. ground (arith, h.1, ends_with-append b'}' h.0),
)

-- A template against a path: as many segments, each equal or a parameter.
abbrev pub Covers : List Text → List Text → Type 0
Covers [] [] = Unit
Covers [] (_ ∷ _) = ⊥
Covers (_ ∷ _) [] = ⊥
Covers (r ∷ rs) (p ∷ ps) =
    (((name : Text) × (r ≡ b'{' ∷ (name ++ (b'}' ∷ [])))) ⊎ (r ≡ p)) × Covers rs ps

segments_iff :
    (rs ps : List Text) → ((length rs == length ps && segments_match rs ps) ≡ true) ↔ Covers rs ps
segments_iff [] [] = (λ _. tt, λ _. refl)
segments_iff [] (p ∷ ps) = (λ e. absurd (ground arith), λ e. absurd e)
segments_iff (r ∷ rs) [] = (λ e. absurd (ground arith), λ e. absurd e)
segments_iff (r ∷ rs) (p ∷ ps) = ground (arith, is_param_iff r, text_eq_iff r p, segments_iff rs ps)

-- A template matches a path exactly when it is empty or covers it segment by segment.
pub resource_matches_path_iff :
    (resource : Text) (path : List Text)
    → (resource_matches_path resource path ≡ true)
      ↔ ((resource ≡ []) ⊎ ((resource ≢ []) × Covers (split b'/' resource) path))
unfolding resource_matches_path
resource_matches_path_iff [] path = (λ _. inl refl, λ _. refl)
resource_matches_path_iff (c ∷ cs) path =
    let g = segments_iff (split b'/' (c ∷ cs)) path in
    (λ e. inr (λ x. cc, g.0 e), λ h. elim h [ inl e ↦ cc | inr k ↦ g.1 k.1 ])
