-- ===== src/Revocation/Deadline.antt =====
-- How long src/jwt.rs keeps the record of a revoked token.
use janux.Common.{arith, ℕ, ◌*◌, ◌+◌, ◌≡◌, ◌≤◌}
use janux.Revocation.{retained_until, second}

-- Away from the end of time, a record outlives the expiry by the two minutes of grace and a second;
-- everywhere it lives at least up to the expiry.
pub retained_until_lem :
    (latest exp : ℕ)
    → (exp ≤ retained_until latest exp)
      × (exp + 121 * second ≤ latest → retained_until latest exp ≡ exp + 121 * second)
unfolding retained_until
retained_until_lem latest exp = (ground arith, λ h. ground (arith, h))
