-- ===== src/Oidc/Lifetimes.antt =====
-- src/utils.rs: the lifetime that a request may ask for.
use janux.Common.{
  Bool-cases, Option, arith, inl, inr, ltb, negsuc, none, pos, some, ℕ, ℤ, ◌*◌, ◌+◌, ◌/◌, ◌<◌, ◌≡◌,
  ◌≤◌, ◌⊎◌,
}
use janux.Oidc.{clamped_token_lifetime_minutes}

-- Whatever is asked for, the lifetime is between one minute and the ceiling.
pub clamped_token_lifetime_minutes-bounds :
    (max_minutes : ℕ) (requested : Option ℤ)
    → 1 ≤ max_minutes
    → (1 ≤ clamped_token_lifetime_minutes requested max_minutes)
      × (clamped_token_lifetime_minutes requested max_minutes ≤ max_minutes)
unfolding clamped_token_lifetime_minutes
clamped_token_lifetime_minutes-bounds max_minutes none h = (h, omega arith)
clamped_token_lifetime_minutes-bounds max_minutes (some (negsuc n)) h = (omega arith, h)
clamped_token_lifetime_minutes-bounds max_minutes (some (pos n)) h =
    (ground (arith, h), ground (arith, h))

-- A request for a minute or more may shorten a token and never lengthens it: the lifetime is between
-- one minute and the ceiling and not longer than what is asked for; it is the ceiling or within a
-- minute of what is asked for.
pub clamped_token_lifetime_minutes-shortens :
    (max_minutes sec : ℕ)
    → 1 ≤ max_minutes
    → 60 ≤ sec
    → (1 ≤ clamped_token_lifetime_minutes (some (pos sec)) max_minutes)
      × (clamped_token_lifetime_minutes (some (pos sec)) max_minutes ≤ max_minutes)
      × (clamped_token_lifetime_minutes (some (pos sec)) max_minutes * 60 ≤ sec)
      × ((clamped_token_lifetime_minutes (some (pos sec)) max_minutes ≡ max_minutes)
          ⊎ (sec < clamped_token_lifetime_minutes (some (pos sec)) max_minutes * 60 + 60))
unfolding clamped_token_lifetime_minutes
clamped_token_lifetime_minutes-shortens max_minutes sec h le =
    elim (Bool-cases (ltb max_minutes (sec / 60))) [
      | inl long ↦ (
        ground (arith, h),
        ground (arith, h),
        ground (arith, h, le, long),
        inl (ground (arith, h, le, long)),
      )
      | inr short ↦ (
        ground (arith, h),
        ground (arith, h),
        ground (arith, h, le, short),
        inr (ground (arith, h, le, short)),
      )
    ]
