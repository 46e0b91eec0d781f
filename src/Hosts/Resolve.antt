-- ===== src/Hosts/Resolve.antt =====
-- Which tenant domain a request selects, in src/utils.rs.
use janux.Common.{
  Bool, Bool-cases, In, List, Option-cases, Text, [], ap, arith, false, inl, inr, none, refl, some,
  subst, sym, true, ◌++◌, ◌↔◌, ◌∙◌, ◌∷◌, ◌≡◌, ◌⊎◌,
}
use janux.Hosts.{strip_port, resolve_host}

-- What a candidate names among the registered domains: itself, else itself without its port.
abbrev pub Names : (Text → Bool) → Text → Text → Type 0
Names router candidate domain =
    ((domain ≡ candidate) × (router candidate ≡ true))
    ⊎ ((router candidate ≡ false) × (strip_port candidate ≡ some domain) × (router domain ≡ true))

abbrev pub Unknown : (Text → Bool) → Text → Type 0
Unknown router candidate =
    (router candidate ≡ false)
    × ((bare : Text) → strip_port candidate ≡ some bare → router bare ≡ false)

-- A candidate names a domain or is unknown.
step :
    (router : Text → Bool) (c : Text) (cs : List Text)
    → ((domain : Text) × Names router c domain × (resolve_host router (c ∷ cs) ≡ some (c, domain)))
      ⊎ (Unknown router c × (resolve_host router (c ∷ cs) ≡ resolve_host router cs))
unfolding resolve_host
step router c cs = elim (Bool-cases (router c)) [
  | inl h ↦ inl (c, inl (refl, h), rw (h, resolve_host))
  | inr h ↦ elim (Option-cases (strip_port c)) [
    | inl p ↦ inr ((h, λ bare e. absurd (ground (arith, p, e))), rw (h, p, resolve_host))
    | inr (bare, p) ↦ elim (Bool-cases (router bare)) [
      | inl g ↦ inl (bare, inr (h, p, g), rw (h, p, g, resolve_host))
      | inr g ↦
          inr ((h, λ other e. other_bare bare other g (sym p ∙ e)), rw (h, p, g, resolve_host))
    ]
  ]
]
  where
    other_bare :
        (bare other : Text) → router bare ≡ false → some bare ≡ some other → router other ≡ false
    other_bare bare other g e = let same : bare ≡ other = ground (arith, e) in rw (← same) g

-- Where a host resolves, the domain is registered and is what the first candidate that names one
-- names: the candidates before it name none.
pub resolve_host-some :
    (router : Text → Bool) (candidates : List Text) (host domain : Text)
    → resolve_host router candidates ≡ some (host, domain)
    → (before : List Text) × (after : List Text) × (candidates ≡ before ++ (host ∷ after))
      × ((c : Text) → In c before → Unknown router c)
      × Names router host domain
unfolding resolve_host
resolve_host-some router [] host domain e = cc
resolve_host-some router (c ∷ cs) host domain e = elim (step router c cs) [
  | inl (d, names, first) ↦
      let pair : ◌≡◌ {A = Text × Text} (c, d) (host, domain) = ground (arith, sym first ∙ e) in
      let here : c ≡ host = ap (λ x. x.0) pair in
      let there : d ≡ domain = ap (λ x. x.1) pair in
      (
        [],
        cs,
        ap (λ x. x ∷ cs) here,
        λ _ i. absurd i,
        subst (λ x. Names router x domain) here (subst (Names router c) there names),
      )
  | inr (unknown, skip) ↦
      let (before, after, cut, none_before, names) =
        resolve_host-some router cs host domain (sym skip ∙ e) in
      (
        c ∷ before,
        after,
        ap (λ xs. c ∷ xs) cut,
        λ x i. elim i [ inl same ↦ rw same unknown | inr j ↦ none_before x j ],
        names,
      )
]

-- A host does not resolve exactly when no candidate names a registered domain.
pub resolve_host-none :
    (router : Text → Bool) (candidates : List Text)
    → (resolve_host router candidates ≡ none) ↔ ((c : Text) → In c candidates → Unknown router c)
unfolding resolve_host
resolve_host-none router [] = (λ _ c i. absurd i, λ _. refl)
resolve_host-none router (c ∷ cs) = elim (step router c cs) [
  | inl (d, names, first) ↦
      (λ e. absurd (ground (arith, sym first ∙ e)), λ h. absurd (clash d names (h c (inl refl))))
  | inr (unknown, skip) ↦ (
    λ e x i. elim i [
      | inl same ↦ rw same unknown
      | inr j ↦ (resolve_host-none router cs).0 (sym skip ∙ e) x j
    ],
    λ h. skip ∙ (resolve_host-none router cs).1 (λ x i. h x (inr i)),
  )
]
  where
    clash : (d : Text) → Names router c d → Unknown router c → ⊥
    clash d (inl (_, found)) (missing, _) = ground (arith, found, missing)
    clash d (inr (_, p, found)) (_, missing) = ground (arith, found, missing d p)
