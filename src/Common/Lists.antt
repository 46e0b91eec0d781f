-- ===== src/Common/Lists.antt =====
-- Lists measured by native numbers, and the Boolean tests over lists that the program uses.
use Prim.Native.Nat.{ℕ, zero, suc, ◌+◌, ◌-◌, min}
use mathlib.Core.Path.{◌≡◌, refl}
use mathlib.Core.Bool.{Bool, true, false, ◌&&◌, ◌||◌}
use mathlib.Core.List.{List, [], ◌∷◌, ◌++◌}
use mathlib.Core.Option.{Option, none, some}
use native.Mathlib.Omega.{arith}
use mathlib.Core.Logic.{◌⊎◌, inl, inr}
use mathlib.Core.Path.{refl, ap, sym, ◌∙◌}
use janux.Common.Tests.{if◌then◌else◌, Bool-cases}

module _ {ℓ} {A : Type ℓ} where
  abbrev pub length : List A → ℕ
  length [] = 0
  length (x ∷ xs) = suc (length xs)

  abbrev pub take : ℕ → List A → List A
  take zero xs = []
  take (suc n) [] = []
  take (suc n) (x ∷ xs) = x ∷ take n xs

  abbrev pub drop : ℕ → List A → List A
  drop zero xs = xs
  drop (suc n) [] = []
  drop (suc n) (x ∷ xs) = drop n xs

  -- `Iterator::any`, `Iterator::all` and `Vec::retain`.
  abbrev pub any : (A → Bool) → List A → Bool
  any p [] = false
  any p (x ∷ xs) = p x || any p xs

  abbrev pub all : (A → Bool) → List A → Bool
  all p [] = true
  all p (x ∷ xs) = p x && all p xs

  abbrev pub retain : (A → Bool) → List A → List A
  retain p [] = []
  retain p (x ∷ xs) = if p x then x ∷ retain p xs else retain p xs

  abbrev pub find : (A → Bool) → List A → Option A
  find p [] = none
  find p (x ∷ xs) = if p x then some x else find p xs

  pub length-append : (xs ys : List A) → length (xs ++ ys) ≡ length xs + length ys
  length-append [] ys = omega arith
  length-append (x ∷ xs) ys = omega (arith, length-append xs ys)

  pub take-append-drop : (n : ℕ) (xs : List A) → take n xs ++ drop n xs ≡ xs
  take-append-drop zero xs = refl
  take-append-drop (suc n) [] = refl
  take-append-drop (suc n) (x ∷ xs) = rw (take-append-drop n xs)

  pub length-take : (n : ℕ) (xs : List A) → length (take n xs) ≡ min n (length xs)
  length-take zero xs = omega arith
  length-take (suc n) [] = omega arith
  length-take (suc n) (x ∷ xs) = omega (arith, length-take n xs)

  pub length-drop : (n : ℕ) (xs : List A) → length (drop n xs) ≡ length xs - n
  length-drop zero xs = omega arith
  length-drop (suc n) [] = omega arith
  length-drop (suc n) (x ∷ xs) = omega (arith, length-drop n xs)

module _ {ℓ} {A : Type ℓ} where
  pub any-append : (p : A → Bool) (xs ys : List A) → any p (xs ++ ys) ≡ (any p xs || any p ys)
  any-append p [] ys = refl
  any-append p (x ∷ xs) ys = ground (arith, any-append p xs ys)

  pub all-append : (p : A → Bool) (xs ys : List A) → all p (xs ++ ys) ≡ (all p xs && all p ys)
  all-append p [] ys = refl
  all-append p (x ∷ xs) ys = ground (arith, all-append p xs ys)

  pub any-retain : (p q : A → Bool) (xs : List A) → any p (retain q xs) ≡ any (λ x. p x && q x) xs
  any-retain p q [] = refl
  any-retain p q (x ∷ xs) = ground (arith, any-retain p q xs)

  pub retain-append :
      (p : A → Bool) (xs ys : List A) → retain p (xs ++ ys) ≡ retain p xs ++ retain p ys
  retain-append p [] ys = refl
  retain-append p (x ∷ xs) ys = ground (arith, retain-append p xs ys)

-- Membership as data, which a proof can take apart.
abbrev pub In : {A : Type 0} → A → List A → Type 0
In a [] = ⊥
In a (x ∷ xs) = (a ≡ x) ⊎ In a xs

module _ {A : Type 0} where
  pub any-In : (p : A → Bool) (xs : List A) → any p xs ≡ true → (x : A) × In x xs × (p x ≡ true)
  any-In p [] e = cc
  any-In p (x ∷ xs) e = elim (Bool-cases (p x)) [
    | inl h ↦ (x, inl refl, h)
    | inr h ↦ let (y, i, q) = any-In p xs (rw h at e) in (y, inr i, q)
  ]

  pub In-any : (p : A → Bool) (x : A) (xs : List A) → In x xs → p x ≡ true → any p xs ≡ true
  In-any p x [] i h = absurd i
  In-any p x (y ∷ ys) (inl e) h = rw (← e, h)
  In-any p x (y ∷ ys) (inr i) h = ground (arith, In-any p x ys i h)

  pub all-In : (p : A → Bool) (x : A) (xs : List A) → all p xs ≡ true → In x xs → p x ≡ true
  all-In p x [] e i = absurd i
  all-In p x (y ∷ ys) e (inl h) = rw h (ground (arith, e))
  all-In p x (y ∷ ys) e (inr i) = all-In p x ys (ground (arith, e)) i

  pub In-all : (p : A → Bool) (xs : List A) → ((x : A) → In x xs → p x ≡ true) → all p xs ≡ true
  In-all p [] h = refl
  In-all p (x ∷ xs) h = ground (arith, h x (inl refl), In-all p xs (λ y i. h y (inr i)))

  pub In-append : (x : A) (xs ys : List A) → In x (xs ++ ys) → In x xs ⊎ In x ys
  In-append x [] ys i = inr i
  In-append x (y ∷ zs) ys (inl e) = inl (inl e)
  In-append x (y ∷ zs) ys (inr i) = elim (In-append x zs ys i) [
    | inl j ↦ inl (inr j)
    | inr j ↦ inr j
  ]

  pub In-append_left : (x : A) (xs ys : List A) → In x xs → In x (xs ++ ys)
  In-append_left x [] ys i = absurd i
  In-append_left x (y ∷ zs) ys (inl e) = inl e
  In-append_left x (y ∷ zs) ys (inr i) = inr (In-append_left x zs ys i)

  pub In-append_right : (x : A) (xs ys : List A) → In x ys → In x (xs ++ ys)
  In-append_right x [] ys i = i
  In-append_right x (y ∷ zs) ys i = inr (In-append_right x zs ys i)

  -- The head is kept: the element is the head, or was in the kept tail.
  head_kept :
      (p : A → Bool) (x y : A) (ys rest : List A)
      → p y ≡ true
      → (In x rest → In x ys × (p x ≡ true))
      → In x (y ∷ rest)
      → In x (y ∷ ys) × (p x ≡ true)
  head_kept p x y ys rest h f (inl e) = (inl e, rw e h)
  head_kept p x y ys rest h f (inr j) = let (k, q) = f j in (inr k, q)

  pub In-retain : (p : A → Bool) (x : A) (xs : List A) → In x (retain p xs) → In x xs × (p x ≡ true)
  In-retain p x [] i = absurd i
  In-retain p x (y ∷ ys) i = elim (Bool-cases (p y)) [
    | inl h ↦ head_kept p x y ys (retain p ys) h (In-retain p x ys) (rw h at i)
    | inr h ↦ let (j, q) = In-retain p x ys (rw h at i) in (inr j, q)
  ]

  pub retain-In : (p : A → Bool) (x : A) (xs : List A) → In x xs → p x ≡ true → In x (retain p xs)
  retain-In p x [] i h = absurd i
  retain-In p x (y ∷ ys) (inl e) h = rw (ap p (sym e) ∙ h) (inl e)
  retain-In p x (y ∷ ys) (inr i) h = elim (Bool-cases (p y)) [
    | inl k ↦ rw k (inr (retain-In p x ys i h))
    | inr k ↦ rw k (retain-In p x ys i h)
  ]
