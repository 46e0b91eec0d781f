-- ===== src/Throttle.antt =====
-- src/utils.rs: the budget of messages to one recipient, and the lockout of an account after failed
-- code verifications. Times are seconds since 1970, read from the clock by the caller.
pub mod SendBudget
pub mod Lockout
pub mod Backoff
use janux.Common.{
  Bool, Text, false, if◌then◌else◌, leb, min, none, not, some, true, ℕ, ◌%◌, ◌*◌, ◌+◌, ◌-◌, ◌==◌,
  ◌^◌,
}
use janux.Ephem.{Entries, compute_or_insert, drop_entry, get}

-- The start of the fixed window of `span` seconds that holds `now`.
abbrev pub window_of : ℕ → ℕ → ℕ
window_of span now = now - now % span

pub record SendCount : Type 0 where
  pub window : ℕ
  pub count : ℕ

abbrev pub count_send : ℕ → ℕ → SendCount → SendCount × Bool
count_send window limit entry =
    if not (entry.window == window)
    then (record { window = window; count = 1 }, true)
    else if leb limit entry.count
    then (entry, false)
    else (record entry { count = entry.count + 1 }, true)

unfoldable pub send_throttle_allows : Entries SendCount → Text → ℕ → ℕ → Entries SendCount × Bool
unfolding compute_or_insert
send_throttle_allows m key limit now =
    let window = window_of 60 now in
    compute_or_insert m key (record { window = window; count = 0 }) (count_send window limit)

pub record VerifyFailures : Type 0 where
  pub window : ℕ
  pub failures : ℕ
  pub locked_until : ℕ
  pub cycles : ℕ

abbrev pub verify_failure_limit : ℕ
verify_failure_limit = 5

abbrev pub verify_failure_window_sec : ℕ
verify_failure_window_sec = 15 * 60

abbrev pub verify_lockout_base_sec : ℕ
verify_lockout_base_sec = 15 * 60

abbrev pub verify_lockout_cap_sec : ℕ
verify_lockout_cap_sec = 24 * 60 * 60

-- The time after which the cache drops the state of a quiet account.
abbrev pub verify_failures_ttl_sec : ℕ
verify_failures_ttl_sec = 25 * 3600

-- `i64::saturating_mul`
abbrev pub saturating_mul : ℕ → ℕ → ℕ
saturating_mul a b = min (a * b) (2 ^ 63 - 1)

unfoldable pub backoff : ℕ → ℕ
backoff cycles =
    min (saturating_mul verify_lockout_base_sec (2 ^ min cycles 16)) verify_lockout_cap_sec

unfoldable pub verify_gate_allows : Entries VerifyFailures → Text → ℕ → Bool
unfolding get
verify_gate_allows m key now = elim (get m key) [
  | some state ↦ leb state.locked_until now
  | none ↦ true
]

abbrev pub in_window : ℕ → VerifyFailures → VerifyFailures
in_window window state =
    if not (state.window == window) then record state { window = window; failures = 0 } else state

abbrev pub arm : ℕ → VerifyFailures → VerifyFailures
arm now state =
    if leb verify_failure_limit state.failures
    then record state {
      locked_until = now + backoff state.cycles;
      cycles = state.cycles + 1;
      failures = 0;
    }
    else state

abbrev pub count_failure : ℕ → VerifyFailures → VerifyFailures
count_failure now state =
    let current = in_window (window_of verify_failure_window_sec now) state in
    arm now (record current { failures = current.failures + 1 })

unfoldable pub record_verify_failure : Entries VerifyFailures → Text → ℕ → Entries VerifyFailures
unfolding compute_or_insert
record_verify_failure m key now =
    (compute_or_insert m key
      (record {
        window = window_of verify_failure_window_sec now;
        failures = 0;
        locked_until = 0;
        cycles = 0;
      })
      (λ state. (count_failure now state, tt {0}))).0

unfoldable pub clear_verify_failures : Entries VerifyFailures → Text → Entries VerifyFailures
clear_verify_failures m key = drop_entry key m
