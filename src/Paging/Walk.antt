-- ===== src/Paging/Walk.antt =====
-- A client that follows `next_offset` sees every row once and in order.
use janux.Common.{
  Bool-cases, List, Option, [], ap, arith, drop, inl, inr, length, length-drop, ltb, none, refl,
  some, suc, sym, take, take-append-drop, zero, ℕ, ◌++◌, ◌+◌, ◌-◌, ◌<◌, ◌∙◌, ◌∷◌, ◌≡◌, ◌≤◌,
}
use janux.Paging.Window.{take-long}
use janux.Paging.{from_all, saturating_add, usize_max}

-- The items of at most `fuel` pages from `offset` on.
pub walk {ℓ} : {A : Type ℓ} → ℕ → List A → ℕ → ℕ → List A
walk zero rows limit offset = []
walk (suc fuel) rows limit offset =
    let page = from_all rows limit offset in
    page.items ++ follow (walk fuel rows limit) page.next_offset
  where
    follow : {A : Type ℓ} → (ℕ → List A) → Option ℕ → List A
    follow go none = []
    follow go (some next) = go next

drop-nil {ℓ} : {A : Type ℓ} (n : ℕ) → ◌≡◌ {A = List A} (drop n []) []
drop-nil zero = refl
drop-nil (suc n) = refl

drop-drop {ℓ} : {A : Type ℓ} (m n : ℕ) (xs : List A) → drop m (drop n xs) ≡ drop (n + m) xs
drop-drop m zero xs = let same : 0 + m ≡ m = omega arith in rw same
drop-drop m (suc n) [] = drop-nil m ∙ sym (drop-nil (suc n + m))
drop-drop m (suc n) (x ∷ xs) =
    let next : suc n + m ≡ suc (n + m) = omega arith in rw next (drop-drop m n xs)

append-nil {ℓ} : {A : Type ℓ} (xs : List A) → xs ++ [] ≡ xs
append-nil [] = refl
append-nil (x ∷ xs) = ap (λ ys. x ∷ ys) (append-nil xs)

-- With a limit of at least 1 and fewer than 2^64 rows, as many requests as there are rows left, and
-- one, give exactly the rows left, in order, and none twice.
pub walk-all {ℓ} :
    {A : Type ℓ} (fuel : ℕ) (rows : List A) (limit offset : ℕ)
    → 1 ≤ limit
    → length rows ≤ usize_max
    → length rows - offset < fuel
    → walk fuel rows limit offset ≡ drop offset rows
unfolding walk from_all
walk-all zero rows limit offset one size enough = absurd (omega arith)
walk-all (suc fuel) rows limit offset one size enough =
    let end = saturating_add offset limit in
    let left = length-drop offset rows in
    elim (Bool-cases (ltb end (length rows))) [
      | inl h ↦
          let exact : end ≡ offset + limit = ground (arith, h) in
          let rest =
            walk-all fuel rows limit (offset + limit) one size (ground (arith, h, enough)) in
          rw h (
            rw exact (
              rw (rest, ← drop-drop limit offset rows) (take-append-drop limit (drop offset rows))))
      | inr h ↦ rw h (
          append-nil (take limit (drop offset rows))
          ∙ take-long limit (drop offset rows) (ground (arith, left, h)))
    ]
