-- ===== src/Throttle/Lockout.antt =====
-- The lockout of src/utils.rs against guessing a code, over every interleaving of wrong guesses.
use native.Mathlib.Nat.{le_trans}
use janux.Common.{
  Bool, Bool-cases, List, Option, Option-cases, Text, [], arith, false, if◌then◌else◌, inl, inr,
  leb, lookup, ltb, none, refl, some, subst, suc, sym, text_eq, text_eq_iff, true, ℕ, ◌&&◌, ◌+◌,
  ◌-◌, ◌<◌, ◌==◌, ◌∙◌, ◌∷◌, ◌≡◌, ◌≤◌,
}
use janux.Ephem.{Entries, put, or_value, compute_or_insert, lookup-put, get}
use janux.Throttle.{
  window_of, VerifyFailures, in_window, arm, count_failure, verify_gate_allows,
  record_verify_failure, verify_failure_window_sec, verify_lockout_cap_sec, verify_failures_ttl_sec,
}
use janux.Throttle.Backoff.{backoff-range}

-- The two calls of a wrong guess on the cache, each with its reading of the clock: the gate at its
-- start, and the recording at its end. Other guesses run in between.
pub data GateCall : Type 0 where
  attempt failure : Text → ℕ → GateCall

-- Calls in the order of the clock, none before `floor`.
abbrev pub Clocked : ℕ → List GateCall → Type 0
Clocked floor [] = Unit
Clocked floor (attempt k now ∷ calls) = (floor ≤ now) × Clocked now calls
Clocked floor (failure k now ∷ calls) = (floor ≤ now) × Clocked now calls

-- The guesses against one account in flight, which have passed the gate and are not recorded, after
-- an attempt and after a failure.
abbrev pub begun : ℕ → Bool → ℕ
begun p b = if b then suc p else p

abbrev pub ended : ℕ → Bool → ℕ
ended p b = if b then p - 1 else p

-- With `p` guesses against `key` in flight, there are never more than `n`.
unfoldable pub Within : ℕ → Text → ℕ → Entries VerifyFailures → List GateCall → Type 0
unfolding verify_gate_allows record_verify_failure
Within n key p m [] = Unit
Within n key p m (attempt k now ∷ calls) =
    let p' = begun p (verify_gate_allows m k now && text_eq k key) in
    (p' ≤ n) × Within n key p' m calls
Within n key p m (failure k now ∷ calls) =
    Within n key (ended p (text_eq k key)) (record_verify_failure m k now) calls

-- How many guesses against `key` pass the gate in window `w`.
unfoldable pub passed : Entries VerifyFailures → List GateCall → Text → ℕ → ℕ
unfolding verify_gate_allows record_verify_failure
passed m [] key w = 0
passed m (attempt k now ∷ calls) key w =
    let rest = passed m calls key w in
    if verify_gate_allows m k now && (text_eq k key && window_of verify_failure_window_sec now == w)
    then suc rest
    else rest
passed m (failure k now ∷ calls) key w = passed (record_verify_failure m k now) calls key w

-- What the lockout leaves for window `w` from a clock in it on, with room for `room` more guesses in
-- flight.
abbrev now_left : Option VerifyFailures → ℕ → ℕ → ℕ
now_left none w room = 4 + room
now_left (some s) w room =
    if leb (w + 900) s.locked_until
    then 0
    else if s.window == w
    then (4 - s.failures) + room
    else 4 + room

-- The same from a clock in window `v` on, where at most `n` guesses are ever in flight and `p` are.
abbrev left : ℕ → ℕ → ℕ → Option VerifyFailures → ℕ → ℕ
left n p v o w = if ltb w v then 0 else if ltb v w then 4 + n else now_left o w (n - p)

-- Fewer than five failures are pending, and the window is not later than `v`.
abbrev Sound : ℕ → Option VerifyFailures → Type 0
Sound v none = Unit
Sound v (some s) = (s.failures < 5) × (s.window ≤ v)

abbrev fresh : ℕ → VerifyFailures
fresh v = record { window = v; failures = 0; locked_until = 0; cycles = 0 }

-- `count_failure` in the window `v`.
abbrev failed : ℕ → ℕ → VerifyFailures → VerifyFailures
failed v now s =
    let current = in_window v s in arm now (record current { failures = current.failures + 1 })

-- One failure that is recorded.
failed-Sound :
    (v now : ℕ) (s : VerifyFailures)
    → s.failures < 5
    → s.window ≤ v
    → Sound v (some (failed v now s))
failed-Sound v now s few reached = elim (Bool-cases (s.window == v)) [
  | inl h ↦ elim (Bool-cases (leb 5 (s.failures + 1))) [
    | inl g ↦ ground arith
    | inr g ↦ ground arith
  ]
  | inr h ↦ ground arith
]

failed-now_left :
    (n p now w : ℕ) (s : VerifyFailures)
    → w ≤ now
    → p ≤ n
    → s.failures < 5
    → now_left (some (failed w now s)) w (n - (p - 1)) ≤ now_left (some s) w (n - p)
failed-now_left n p now w s start few_now few =
    let range = backoff-range s.cycles in
    elim (Bool-cases (s.window == w)) [
      | inl h ↦ elim (Bool-cases (leb 5 (s.failures + 1))) [
        | inl g ↦ ground arith
        | inr g ↦ ground arith
      ]
      | inr h ↦ ground arith
    ]

failed-left :
    (n p v now w : ℕ) (s : VerifyFailures)
    → v ≤ now
    → p ≤ n
    → s.failures < 5
    → left n (p - 1) v (some (failed v now s)) w ≤ left n p v (some s) w
failed-left n p v now w s start bound few = elim (Bool-cases (ltb w v)) [
  | inl h ↦ rw h (omega arith)
  | inr h ↦ elim (Bool-cases (ltb v w)) [
    | inl g ↦ rw (h, g) (omega arith)
    | inr g ↦
        let same : v ≡ w = ground (arith, h, g) in
        rw (h, g)
          (subst
            (λ x. now_left (some (failed x now s)) w (n - (p - 1)) ≤ now_left (some s) w (n - p))
            (sym same) (failed-now_left n p now w s (rw same at start) bound few))
  ]
]

found-left :
    (n p v w : ℕ) (o : Option VerifyFailures)
    → left n p v (some (or_value (fresh v) o)) w ≤ left n p v o w
found-left n p v w none = ground arith
found-left n p v w (some s) = omega arith

start-left : (n v w : ℕ) → left n 0 v none w ≤ 4 + n
start-left n v w = ground arith

-- The clock goes on.
later-left :
    (n p v v' w : ℕ) (o : Option VerifyFailures) → v ≤ v' → left n p v' o w ≤ left n p v o w
later-left n p v v' w none le = ground arith
later-left n p v v' w (some s) le = elim (Bool-cases (ltb v w)) [
  | inl g ↦ elim (Bool-cases (s.window == w)) [ inl h ↦ ground arith | inr h ↦ ground arith ]
  | inr g ↦ ground arith
]

-- One attempt that passes the gate.
begun-left :
    (n p v now w : ℕ) (o : Option VerifyFailures)
    → now < v + 900
    → suc p ≤ n
    → (or_value (fresh v) o).locked_until ≤ now
    → (if v == w then suc (left n (suc p) v o w) else left n (suc p) v o w) ≤ left n p v o w
begun-left n p v now w none end bound unlocked = ground arith
begun-left n p v now w (some s) end bound unlocked = elim (Bool-cases (s.window == w)) [
  | inl h ↦ ground arith
  | inr h ↦ ground arith
]

open_gate :
    (m : Entries VerifyFailures) (key : Text) (now v : ℕ)
    → verify_gate_allows m key now ≡ true
    → (or_value (fresh v) (lookup key m)).locked_until ≤ now
unfolding verify_gate_allows get
open_gate m key now v e = elim (Option-cases (lookup key m)) [
  | inl h ↦ rw h (omega arith)
  | inr (s, h) ↦ rw h (ground (arith, rw (h, verify_gate_allows, get) at e))
]

found-Sound :
    (v floor : ℕ) (o : Option VerifyFailures)
    → floor ≤ v
    → Sound floor o
    → Sound v (some (or_value (fresh v) o))
found-Sound v floor none le h = (omega arith, omega arith)
found-Sound v floor (some s) le (a, b) = (a, omega arith)

later-Sound : (v floor : ℕ) (o : Option VerifyFailures) → floor ≤ v → Sound floor o → Sound v o
later-Sound v floor none le h = tt
later-Sound v floor (some s) le (a, b) = (a, omega arith)

window-900 :
    (s t : ℕ)
    → s ≤ t
    → (window_of 900 s ≤ window_of 900 t) × (window_of 900 t ≤ t) × (t < window_of 900 t + 900)
window-900 s t h = (omega arith, omega arith, omega arith)

attempt-left :
    (n p v now w : ℕ) (o : Option VerifyFailures) (allowed same : Bool) (rest : ℕ)
    → now < v + 900
    → begun p (allowed && same) ≤ n
    → (allowed ≡ true → same ≡ true → (or_value (fresh v) o).locked_until ≤ now)
    → rest ≤ left n (begun p (allowed && same)) v o w
    → (if allowed && (same && v == w) then suc rest else rest) ≤ left n p v o w
attempt-left n p v now w o true true rest end bound unlocked le =
    let count = begun-left n p v now w o end bound (unlocked refl refl) in
    elim (Bool-cases (v == w)) [ inl h ↦ ground (arith, h) | inr h ↦ ground (arith, h) ]
attempt-left n p v now w o true false rest end bound unlocked le = le
attempt-left n p v now w o false same rest end bound unlocked le = le

passed-left :
    (n p floor : ℕ) (m : Entries VerifyFailures) (calls : List GateCall) (key : Text) (w : ℕ)
    → Clocked floor calls
    → p ≤ n
    → Within n key p m calls
    → Sound (window_of 900 floor) (lookup key m)
    → passed m calls key w ≤ left n p (window_of 900 floor) (lookup key m) w
unfolding passed Within record_verify_failure compute_or_insert
passed-left n p floor m [] key w order bound within sound = omega arith
passed-left n p floor m (attempt k now ∷ calls) key w (le, order) bound (bound', within) sound =
    let (mono, start, end) = window-900 floor now le in
    let v = window_of 900 now in
    let sound' = later-Sound v (window_of 900 floor) (lookup key m) mono sound in
    let rest = passed-left n _ now m calls key w order bound' within sound' in
    let top = later-left n p (window_of 900 floor) v w (lookup key m) mono in
    let unlocked : verify_gate_allows m k now ≡ true
        → text_eq k key ≡ true
        → (or_value (fresh v) (lookup key m)).locked_until ≤ now =
      λ pass h.
        subst (λ x. (or_value (fresh v) (lookup x m)).locked_until ≤ now) ((text_eq_iff k key).0 h)
          (open_gate m k now v pass) in
    le_trans
      (attempt-left n p v now w (lookup key m) (verify_gate_allows m k now) (text_eq k key) _ end
        bound' unlocked rest)
      top
passed-left n p floor m (failure k now ∷ calls) key w (le, order) bound within sound =
    let (mono, start, end) = window-900 floor now le in
    let v = window_of 900 now in
    let sound' = later-Sound v (window_of 900 floor) (lookup key m) mono sound in
    let top = later-left n p (window_of 900 floor) v w (lookup key m) mono in
    let s = or_value (fresh v) (lookup k m) in
    let m' = put k (failed v now s) m in
    let now_found = lookup-put k key (failed v now s) m in
    elim (Bool-cases (text_eq k key)) [
      | inl h ↦
          let same = (text_eq_iff k key).0 h in
          let here : lookup key m' ≡ some (failed v now s) = now_found ∙ rw h in
          let (few, reached) =
            found-Sound v v (lookup k m) (omega arith)
              (subst (λ x. Sound v (lookup x m)) (sym same) sound') in
          let within' : Within n key (p - 1) m' calls =
            subst (λ x. Within n key (ended p x) m' calls) h within in
          let rest =
            passed-left n (p - 1) now m' calls key w order (omega arith) within'
              (subst (Sound v) (sym here) (failed-Sound v now s few reached)) in
          le_trans (subst (λ o. passed m' calls key w ≤ left n (p - 1) v o w) here rest) (
            le_trans (failed-left n p v now w s start bound few) (
              le_trans
                (subst (λ x. left n p v (some s) w ≤ left n p v (lookup x m) w) same
                  (found-left n p v w (lookup k m)))
                top))
      | inr h ↦
          let there : lookup key m' ≡ lookup key m = now_found ∙ rw h in
          let within' : Within n key p m' calls =
            subst (λ x. Within n key (ended p x) m' calls) h within in
          let rest =
            passed-left n p now m' calls key w order bound within'
              (subst (Sound v) (sym there) sound') in
          le_trans (subst (λ o. passed m' calls key w ≤ left n p v o w) there rest) top
    ]

-- From an empty cache that drops no entry, with calls in the order of the clock, no code accepted in
-- between, and at most `n` wrong guesses against one account in flight at a time, from their gate to
-- their recording, at most `4 + n` of them pass the gate in one window of 15 minutes, however the
-- calls interleave and whatever other accounts are tried; so five when they come one at a time.
pub guesses-limit :
    (n floor : ℕ) (calls : List GateCall) (key : Text) (w : ℕ)
    → Clocked floor calls
    → Within n key 0 [] calls
    → passed [] calls key w ≤ 4 + n
guesses-limit n floor calls key w order within =
    le_trans (passed-left n 0 floor [] calls key w order (omega arith) within tt)
      (start-left n (window_of 900 floor) w)

-- The state that a failure writes holds no lock that outlives it in the cache: where every earlier
-- lock ended at most a day after its writing, the new one ends within a day, so before the entry's
-- age drops it.
pub count_failure-ttl :
    (t now : ℕ) (s : VerifyFailures)
    → t ≤ now
    → s.locked_until ≤ t + verify_lockout_cap_sec
    → ((count_failure now s).locked_until ≤ now + verify_lockout_cap_sec)
      × ((count_failure now s).locked_until < now + verify_failures_ttl_sec)
count_failure-ttl t now s le earlier =
    let range = backoff-range s.cycles in
    elim (Bool-cases (s.window == window_of 900 now)) [
      | inl h ↦ ground (arith, h)
      | inr h ↦ ground (arith, h)
    ]
