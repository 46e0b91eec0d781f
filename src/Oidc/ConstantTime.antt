-- ===== src/Oidc/ConstantTime.antt =====
-- src/oidc.rs: the comparison of two byte strings that takes the same time wherever they differ.
use janux.Common.{
  ==_iff, Bool, Bool-cases, Bool-ext, List, [], ap, arith, false, if◌then◌else◌, inl, inr, length,
  max, not, refl, suc, text_eq, text_eq_iff, true, zero, ℕ, ◌%◌, ◌*◌, ◌+◌, ◌/◌, ◌<◌, ◌==◌, ◌^◌, ◌↔◌,
  ◌∷◌, ◌≡◌,
}

-- The operators of `u8`, bit by bit, the lowest bit first.
abbrev pub xor_bits : ℕ → ℕ → ℕ → ℕ
xor_bits zero a b = 0
xor_bits (suc n) a b = (a + b) % 2 + 2 * xor_bits n (a / 2) (b / 2)

abbrev pub or_bits : ℕ → ℕ → ℕ → ℕ
or_bits zero a b = 0
or_bits (suc n) a b = max (a % 2) (b % 2) + 2 * or_bits n (a / 2) (b / 2)

unfoldable pub xor_u8 : ℕ → ℕ → ℕ
xor_u8 a b = xor_bits 8 a b

unfoldable pub or_u8 : ℕ → ℕ → ℕ
or_u8 a b = or_bits 8 a b

-- The loop over the zipped bytes with the difference so far.
abbrev pub differences : ℕ → List ℕ → List ℕ → ℕ
differences diff [] b = diff
differences diff (x ∷ xs) [] = diff
differences diff (x ∷ xs) (y ∷ ys) = differences (or_u8 diff (xor_u8 x y)) xs ys

unfoldable pub constant_time_eq : List ℕ → List ℕ → Bool
constant_time_eq a b = if not (length a == length b) then false else differences 0 a b == 0

xor_bits_iff : (n a b : ℕ) → a < 2 ^ n → b < 2 ^ n → (xor_bits n a b ≡ 0) ↔ (a ≡ b)
xor_bits_iff zero a b la lb = (λ _. omega arith, λ _. refl)
xor_bits_iff (suc n) a b la lb =
    let rest = xor_bits_iff n (a / 2) (b / 2) (omega arith) (omega arith) in
    (
      λ e. let halves = rest.0 (omega arith) in omega arith,
      λ e. let zero_rest = rest.1 (omega arith) in omega arith,
    )

or_bits_iff : (n a b : ℕ) → a < 2 ^ n → b < 2 ^ n → (or_bits n a b ≡ 0) ↔ ((a ≡ 0) × (b ≡ 0))
or_bits_iff zero a b la lb = (λ _. (omega arith, omega arith), λ _. refl)
or_bits_iff (suc n) a b la lb =
    let rest = or_bits_iff n (a / 2) (b / 2) (omega arith) (omega arith) in
    (
      λ e. let (x, y) = rest.0 (omega arith) in (omega arith, omega arith),
      λ e. let z = rest.1 (ground arith) in omega arith,
    )

xor_bits-lt : (n a b : ℕ) → xor_bits n a b < 2 ^ n
xor_bits-lt zero a b = omega arith
xor_bits-lt (suc n) a b = let rest = xor_bits-lt n (a / 2) (b / 2) in omega arith

or_bits-lt : (n a b : ℕ) → or_bits n a b < 2 ^ n
or_bits-lt zero a b = omega arith
or_bits-lt (suc n) a b = let rest = or_bits-lt n (a / 2) (b / 2) in omega arith

xor_u8_iff : (a b : ℕ) → a < 256 → b < 256 → (xor_u8 a b ≡ 0) ↔ (a ≡ b)
unfolding xor_u8
xor_u8_iff a b la lb = xor_bits_iff 8 a b la lb

or_u8_iff : (a b : ℕ) → a < 256 → b < 256 → (or_u8 a b ≡ 0) ↔ ((a ≡ 0) × (b ≡ 0))
unfolding or_u8
or_u8_iff a b la lb = or_bits_iff 8 a b la lb

xor_u8-lt : (a b : ℕ) → xor_u8 a b < 256
unfolding xor_u8
xor_u8-lt a b = xor_bits-lt 8 a b

or_u8-lt : (a b : ℕ) → or_u8 a b < 256
unfolding or_u8
or_u8-lt a b = or_bits-lt 8 a b

-- The texts are bytes.
abbrev pub Bytes : List ℕ → Type 0
Bytes [] = Unit
Bytes (x ∷ xs) = (x < 256) × Bytes xs

differences_iff :
    (diff : ℕ) (a b : List ℕ)
    → diff < 256
    → Bytes a
    → Bytes b
    → length a ≡ length b
    → (differences diff a b ≡ 0) ↔ ((diff ≡ 0) × (text_eq a b ≡ true))
differences_iff diff [] [] ld ba bb e = (λ z. (z, refl), λ z. z.0)
differences_iff diff [] (y ∷ ys) ld ba bb e = absurd (omega arith)
differences_iff diff (x ∷ xs) [] ld ba bb e = absurd (omega arith)
differences_iff diff (x ∷ xs) (y ∷ ys) ld (lx, ba) (ly, bb) e =
    let step = or_u8 diff (xor_u8 x y) in
    let rest = differences_iff step xs ys (or_u8-lt diff (xor_u8 x y)) ba bb (omega arith) in
    let here = or_u8_iff diff (xor_u8 x y) ld (xor_u8-lt x y) in
    let same = xor_u8_iff x y lx ly in ground (arith, rest, here, same)

differences-equal :
    (a b : List ℕ)
    → Bytes a
    → Bytes b
    → length a ≡ length b
    → (differences 0 a b == 0) ≡ text_eq a b
differences-equal a b ba bb e =
    let h = differences_iff 0 a b (omega arith) ba bb e in
    let z = ==_iff (differences 0 a b) 0 in
    Bool-ext _ _ (λ k. (h.0 (z.0 k)).1) (λ k. z.1 (h.1 (refl, k)))

text_eq-length : (a b : List ℕ) → text_eq a b ≡ true → length a ≡ length b
text_eq-length a b e = ap length ((text_eq_iff a b).0 e)

-- On bytes it is equality.
pub constant_time_eq-equal : (a b : List ℕ) → Bytes a → Bytes b → constant_time_eq a b ≡ text_eq a b
unfolding constant_time_eq
constant_time_eq-equal a b ba bb = elim (Bool-cases (length a == length b)) [
  | inl h ↦ rw (h, constant_time_eq) (differences-equal a b ba bb ((==_iff _ _).0 h))
  | inr h ↦
      rw (h, constant_time_eq)
        (Bool-ext _ _ (λ e. cc)
          (λ e. let k = (==_iff (length a) (length b)).1 (text_eq-length a b e) in cc))
]
