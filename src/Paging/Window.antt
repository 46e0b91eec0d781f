-- ===== src/Paging/Window.antt =====
-- A page built from a probing query is the page cut out of the whole list.
use janux.Common.{
  Bool-cases, List, Option, [], ap, arith, drop, false, if◌then◌else◌, inl, inr, length,
  length-drop, length-take, ltb, min, none, refl, some, suc, sym, take, true, zero, ℕ, ◌%◌, ◌+◌,
  ◌^◌, ◌∙◌, ◌∷◌, ◌≡◌, ◌≤◌,
}
use janux.Paging.{
  page_params, page_bounds, Page, from_rows, from_all, fetch, saturating_add, then_some,
  i64_max_usize,
}

pub page_params-range :
    (limit offset : Option ℕ)
    → let (l, o) = page_params limit offset in (1 ≤ l) × (l ≤ 200) × (o ≤ i64_max_usize)
unfolding page_params
page_params-range none none = (ground arith, ground arith, omega arith)
page_params-range none (some o) = (ground arith, ground arith, omega arith)
page_params-range (some l) none = (ground arith, ground arith, omega arith)
page_params-range (some l) (some o) = (ground arith, ground arith, omega arith)

take-suc-take {ℓ} : {A : Type ℓ} (n : ℕ) (xs : List A) → take n (take (suc n) xs) ≡ take n xs
take-suc-take zero xs = refl
take-suc-take (suc n) [] = refl
take-suc-take (suc n) (x ∷ xs) = ap (λ ys. x ∷ ys) (take-suc-take n xs)

pub take-long {ℓ} : {A : Type ℓ} (n : ℕ) (xs : List A) → length xs ≤ n → take n xs ≡ xs
take-long zero [] h = refl
take-long zero (x ∷ xs) h = absurd (omega arith)
take-long (suc n) [] h = refl
take-long (suc n) (x ∷ xs) h = ap (λ ys. x ∷ ys) (take-long n xs (omega arith))

same_page {ℓ} :
    {A : Type ℓ} (xs ys : List A) (limit offset : ℕ) (m n : Option ℕ)
    → xs ≡ ys
    → m ≡ n
    → ◌≡◌ {A = Page A}
        (record { items = xs; limit = limit; offset = offset; next_offset = m })
        (record { items = ys; limit = limit; offset = offset; next_offset = n })
same_page xs ys limit offset m n e f = cc

probe {ℓ} :
    {A : Type ℓ} (limit : ℕ) (xs : List A)
    → ((if ltb limit (length (take (suc limit) xs))
          then take limit (take (suc limit) xs)
          else take (suc limit) xs)
        ≡ take limit xs)
      × (ltb limit (length (take (suc limit) xs)) ≡ ltb limit (length xs))
probe limit xs =
    let count = length-take (suc limit) xs in
    elim (Bool-cases (ltb limit (length xs))) [
      | inl h ↦
          let more : ltb limit (length (take (suc limit) xs)) ≡ true = ground (arith, count, h) in
          rw more (take-suc-take limit xs, sym h)
      | inr h ↦
          let last : ltb limit (length (take (suc limit) xs)) ≡ false = ground (arith, count, h) in
          rw last (
            take-long (suc limit) xs (ground (arith, h))
                ∙ sym (take-long limit xs (ground (arith, h))),
            sym h,
          )
    ]

-- For a limit of at most 200 and an offset within the bounds, the page
-- built from the rows that the query with one row more than the limit gives is the page cut out of
-- the whole list.
pub from_rows-from_all {ℓ} :
    {A : Type ℓ} (rows : List A) (limit offset : ℕ)
    → limit ≤ 200
    → offset ≤ i64_max_usize
    → from_rows (fetch rows (page_bounds limit offset)) limit offset ≡ from_all rows limit offset
unfolding page_bounds from_rows from_all
from_rows-from_all rows limit offset small inside =
    let l : min (saturating_add limit 1) i64_max_usize ≡ suc limit = omega arith in
    let o : min offset i64_max_usize ≡ offset = omega arith in
    let end : saturating_add offset limit ≡ offset + limit = omega arith in
    let exact : (offset + limit) % 2 ^ 64 ≡ offset + limit = omega arith in
    let (items, more) = probe limit (drop offset rows) in
    let size = length-drop offset rows in
    let test : ltb limit (length (drop offset rows)) ≡ ltb (offset + limit) (length rows) =
      ground (arith, size) in
    rw (l, o, end, exact)
      (same_page _ _ limit offset _ _ items (ap (λ b. then_some b (offset + limit)) (more ∙ test)))
