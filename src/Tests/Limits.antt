-- ===== src/Tests/Limits.antt =====
-- Runs of the theorems on throttling, lockout and the short-lived cache.
use janux.Common.{List, Text, [], arith, chars, refl, ℕ, ◌+◌, ◌∷◌, ◌≡◌, ◌≤◌}
use janux.Ephem.{Entries, get, compute_or_insert}
use janux.Throttle.{VerifyFailures, verify_gate_allows, record_verify_failure}
use janux.Throttle.SendBudget.{InOrder, sent, sent-limit}
use janux.Throttle.Lockout.{guesses-limit, Clocked, Within, GateCall, passed, attempt, failure}

abbrev k : Text
k = chars "a.io|email:eve"

abbrev burst : List (Text × ℕ)
burst = (k, 6001) ∷ (k, 6002) ∷ (chars "other", 6003) ∷ (k, 6004) ∷ (k, 6061) ∷ []

burst-InOrder : InOrder 6000 burst
burst-InOrder = (omega arith, (omega arith, (omega arith, (omega arith, (omega arith, tt)))))

sent-limit_example : sent 2 [] burst k 6000 ≤ 2
sent-limit_example = sent-limit 2 6000 burst k 6000 (omega arith) burst-InOrder

-- Two guesses against `k` overlap, and the second one is recorded first.
abbrev overlapping : List GateCall
overlapping =
    attempt k 6001
    ∷ attempt k 6002
    ∷ failure k 6003
    ∷ attempt (chars "other") 6003
    ∷ failure k 6005
    ∷ attempt k 6061
    ∷ []

overlapping-Clocked : Clocked 6000 overlapping
overlapping-Clocked =
    (omega arith, (omega arith, (omega arith, (omega arith, (omega arith, (omega arith, tt))))))

overlapping-Within : Within 2 k 0 [] overlapping
unfolding Within verify_gate_allows get record_verify_failure compute_or_insert
overlapping-Within = (omega arith, (omega arith, (omega arith, (omega arith, tt))))

guesses-limit_example : passed [] overlapping k 5400 ≤ 4 + 2
guesses-limit_example =
    guesses-limit 2 6000 overlapping k 5400 overlapping-Clocked overlapping-Within

-- All three of them pass.
overlapping-passed : passed [] overlapping k 5400 ≡ 3
unfolding passed verify_gate_allows get record_verify_failure compute_or_insert
overlapping-passed = refl

-- Six guesses that are in flight together all pass the gate.
together :
    passed []
      (attempt k 6001
        ∷ attempt k 6001
        ∷ attempt k 6001
        ∷ attempt k 6001
        ∷ attempt k 6001
        ∷ attempt k 6001
        ∷ failure k 6002
        ∷ failure k 6002
        ∷ failure k 6002
        ∷ failure k 6002
        ∷ failure k 6002
        ∷ failure k 6002
        ∷ [])
      k
      5400
    ≡ 6
unfolding passed verify_gate_allows get record_verify_failure compute_or_insert
together = refl

abbrev fifth : VerifyFailures
fifth = record { window = 9000; failures = 4; locked_until = 0; cycles = 3 }

abbrev codes : Entries ℕ
codes = (chars "code", 41) ∷ []
