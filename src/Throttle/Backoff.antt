-- ===== src/Throttle/Backoff.antt =====
-- The backoff of repeated lockouts in src/utils.rs.
use janux.Common.{
  Bool-cases, arith, if◌then◌else◌, inl, inr, ltb, min, subst, suc, zero, ℕ, ◌*◌, ◌+◌, ◌-◌, ◌^◌,
  ◌≡◌, ◌≤◌, ◌⊎◌,
}
use janux.Throttle.{backoff}

six_or_more : (n : ℕ) → 7 ≤ suc n → (n ≡ 6) ⊎ (7 ≤ n)
six_or_more n h = ground arith

pow_suc : (n : ℕ) → 2 ^ suc n ≡ 2 * 2 ^ n
pow_suc n = grind arith

pow_large : (n : ℕ) → 7 ≤ n → 128 ≤ 2 ^ n
pow_large zero h = omega arith
pow_large (suc n) h = elim (six_or_more n h) [
  | inl e ↦ rw e (omega arith)
  | inr le ↦ omega (arith, pow_large n le, pow_suc n)
]

pow_grows : (d n : ℕ) → 2 ^ n ≤ 2 ^ (d + n)
pow_grows zero n = grind arith
pow_grows (suc d) n =
    let next : suc d + n ≡ suc (d + n) = omega arith in
    rw next (omega (arith, pow_grows d n, pow_suc (d + n)))

pow_small : (n : ℕ) → n ≤ 6 → 2 ^ n ≤ 64
pow_small n h =
    let sum : 6 - n + n ≡ 6 = omega arith in subst (λ k. 2 ^ n ≤ 2 ^ k) sum (pow_grows (6 - n) n)

-- The lock lasts 15 minutes and doubles with each cycle, for a day from the seventh doubling on:
-- neither the bound on the shift nor the saturation of the product shows in the value.
pub backoff_lem : (cycles : ℕ) → backoff cycles ≡ (if ltb cycles 7 then 900 * 2 ^ cycles else 86400)
unfolding backoff
backoff_lem cycles = elim (Bool-cases (ltb cycles 7)) [
  | inl h ↦
      let small : min cycles 16 ≡ cycles = ground (arith, h) in
      rw (h, small) (omega (arith, pow_small cycles (ground (arith, h))))
  | inr h ↦ rw h (omega (arith, pow_large (min cycles 16) (ground (arith, h))))
]

pow_positive : (n : ℕ) → 1 ≤ 2 ^ n
pow_positive zero = omega arith
pow_positive (suc n) = omega (arith, pow_positive n, pow_suc n)

pub backoff-range : (cycles : ℕ) → (900 ≤ backoff cycles) × (backoff cycles ≤ 86400)
unfolding backoff
backoff-range cycles = (omega (arith, pow_positive (min cycles 16)), omega arith)
