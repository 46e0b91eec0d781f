-- ===== src/Hosts/Ports.antt =====
-- Splitting a host and its port, in src/utils.rs.
use janux.Common.{
  Bool, Bool-cases, Option, Option-cases, Text, [], all, all-append, ap, arith, false, inl, inr,
  is_empty, none, not, refl, some, true, ℕ, ◌&&◌, ◌++◌, ◌+◌, ◌==◌, ◌∙◌, ◌∷◌, ◌≡◌, ◌≤◌,
}
use janux.Hosts.{split_first, split_last, bracketed, plain_port, split_port, is_ascii_digit}

some_pair :
    (a b c d : Text)
    → ◌≡◌ {A = Option (Text × Text)} (some (a, b)) (some (c, d))
    → (a ≡ c) × (b ≡ d)
some_pair a b c d e = (cc, cc)

split_last-some : (c : ℕ) (s a b : Text) → split_last c s ≡ some (a, b) → s ≡ a ++ (c ∷ b)
split_last-some c [] a b e = cc
split_last-some c (x ∷ xs) a b e = elim (Option-cases (split_last c xs)) [
  | inr ((a', b'), h) ↦
      let (f, g) = some_pair (x ∷ a') b' a b (rw h at e) in
      ap (λ s. x ∷ s) (split_last-some c xs a' b' h) ∙ rw (← f, ← g)
  | inl h ↦ elim (Bool-cases (x == c)) [
    | inl k ↦
        let (f, g) = some_pair [] xs a b (rw (h, k) at e) in
        let same : x ≡ c = ground (arith, k) in rw (← f, ← g, same)
    | inr k ↦ absurd (ground (arith, rw (h, k) at e))
  ]
]

split_first-some : (c : ℕ) (s a b : Text) → split_first c s ≡ some (a, b) → s ≡ a ++ b
split_first-some c [] a b e = cc
split_first-some c (x ∷ xs) a b e = elim (Bool-cases (x == c)) [
  | inl k ↦ let (f, g) = some_pair (x ∷ []) xs a b (rw k at e) in rw (← f, ← g)
  | inr k ↦ elim (Option-cases (split_first c xs)) [
    | inl h ↦ absurd (ground (arith, rw (k, h) at e))
    | inr ((a', b'), h) ↦
        let (f, g) = some_pair (x ∷ a') b' a b (rw (k, h) at e) in
        ap (λ s. x ∷ s) (split_first-some c xs a' b' h) ∙ rw (← f, ← g)
  ]
]

bracketed-some :
    (a rest host port : Text)
    → bracketed a rest ≡ some (host, port)
    → a ++ rest ≡ host ++ (b':' ∷ port)
bracketed-some a [] host port e = cc
bracketed-some a (c ∷ rest) host port e = elim (Bool-cases (c == b':')) [
  | inl k ↦
      let (f, g) = some_pair a rest host port (rw k at e) in
      let same : c ≡ b':' = ground (arith, k) in rw (← f, ← g, same)
  | inr k ↦ absurd (ground (arith, rw k at e))
]

plain_port-some :
    (a b host port : Text) → plain_port a b ≡ some (host, port) → (a ≡ host) × (b ≡ port)
plain_port-some a b host port e =
    elim (Bool-cases (not (is_empty a) && (not (is_empty b) && all is_ascii_digit b))) [
      | inl k ↦ some_pair a b host port (rw k at e)
      | inr k ↦ absurd (ground (arith, rw k at e))
    ]

-- A split gives back the host: the two parts stand on the sides of a colon.
pub split_port-some :
    (s host port : Text) → split_port s ≡ some (host, port) → s ≡ host ++ (b':' ∷ port)
unfolding split_port
split_port-some s host port e = elim (Option-cases (split_first b']' s)) [
  | inr ((a, rest), h) ↦
      split_first-some b']' s a rest h ∙ bracketed-some a rest host port (rw (h, split_port) at e)
  | inl h ↦ elim (Option-cases (split_last b':' s)) [
    | inl k ↦ absurd (ground (arith, rw (h, k, split_port) at e))
    | inr ((a, b), k) ↦
        let (f, g) = plain_port-some a b host port (rw (h, k, split_port) at e) in
        split_last-some b':' s a b k ∙ rw (f, g)
  ]
]

abbrev pub lacks : ℕ → Text → Bool
lacks c s = all (λ x. not (x == c)) s

split_first-lacks : (c : ℕ) (s : Text) → lacks c s ≡ true → split_first c s ≡ none
split_first-lacks c [] h = refl
split_first-lacks c (x ∷ xs) h = rw (split_first-lacks c xs (ground (arith, h))) (ground (arith, h))

split_last-lacks : (c : ℕ) (s : Text) → lacks c s ≡ true → split_last c s ≡ none
split_last-lacks c [] h = refl
split_last-lacks c (x ∷ xs) h = rw (split_last-lacks c xs (ground (arith, h))) (ground (arith, h))

split_last-append :
    (c : ℕ) (s t : Text) → lacks c t ≡ true → split_last c (s ++ (c ∷ t)) ≡ some (s, t)
split_last-append c [] t h = rw (split_last-lacks c t h) (ground arith)
split_last-append c (x ∷ s) t h = rw (split_last-append c s t h)

digits-lacks : (c : ℕ) (s : Text) → b'9' + 1 ≤ c → all is_ascii_digit s ≡ true → lacks c s ≡ true
digits-lacks c [] le h = refl
digits-lacks c (x ∷ s) le h = ground (arith, digits-lacks c s le (ground (arith, h)), h)

-- A name without a closing bracket, a colon and a number are taken apart again.
pub split_port-plain :
    (host port : Text)
    → is_empty host ≡ false
    → is_empty port ≡ false
    → all is_ascii_digit port ≡ true
    → lacks b']' host ≡ true
    → split_port (host ++ (b':' ∷ port)) ≡ some (host, port)
unfolding split_port
split_port-plain host port h p digits plain =
    let no_bracket : lacks b']' (host ++ (b':' ∷ port)) ≡ true =
      all-append (λ x. not (x == b']')) host (b':' ∷ port)
      ∙ ground (arith, plain, digits-lacks b']' port (omega arith) digits) in
    rw
      (
        split_first-lacks b']' (host ++ (b':' ∷ port)) no_bracket,
        split_last-append b':' host port (digits-lacks b':' port (omega arith) digits),
        split_port,
      )
      (ground (arith, h, p, digits))
