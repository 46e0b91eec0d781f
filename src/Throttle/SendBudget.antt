-- ===== src/Throttle/SendBudget.antt =====
-- The budget of messages in src/utils.rs over every sequence of requests.
use janux.Common.{
  Bool, Bool-cases, List, Option, Text, [], arith, false, if◌then◌else◌, inl, inr, leb, lookup, ltb,
  none, some, subst, suc, sym, text_eq, text_eq_iff, true, ℕ, ◌&&◌, ◌-◌, ◌==◌, ◌∙◌, ◌∷◌, ◌≡◌, ◌≤◌,
}
use janux.Ephem.{Entries, put, or_value, compute_or_insert, lookup-put}
use janux.Throttle.{window_of, SendCount, count_send, send_throttle_allows}

-- Requests in the order of the clock, none before `floor`.
abbrev pub InOrder : ℕ → List (Text × ℕ) → Type 0
InOrder floor [] = Unit
InOrder floor ((key, now) ∷ calls) = (floor ≤ now) × InOrder now calls

-- How many of the requests for `key` in window `w` the throttle lets through.
pub sent : ℕ → Entries SendCount → List (Text × ℕ) → Text → ℕ → ℕ
unfolding send_throttle_allows compute_or_insert
sent limit m [] key w = 0
sent limit m ((k, now) ∷ calls) key w =
    let (m', allowed) = send_throttle_allows m k limit now in
    let rest = sent limit m' calls key w in
    if allowed && (text_eq k key && window_of 60 now == w) then suc rest else rest

-- What the budget has left for window `w`.
abbrev room : ℕ → Option SendCount → ℕ → ℕ
room limit none w = limit
room limit (some e) w =
    if e.window == w then limit - e.count else if ltb w e.window then 0 else limit

-- The window of the entry is not later than `floor`'s.
abbrev Reached : ℕ → Option SendCount → Type 0
Reached floor none = Unit
Reached floor (some e) = e.window ≤ window_of 60 floor

window_mono : (s t : ℕ) → s ≤ t → window_of 60 s ≤ window_of 60 t
window_mono s t h = omega arith

count_send-room :
    (limit v w : ℕ) (e : SendCount)
    → 1 ≤ limit
    → e.window ≤ v
    → ((if (count_send v limit e).1 && v == w
          then suc (room limit (some (count_send v limit e).0) w)
          else room limit (some (count_send v limit e).0) w)
        ≤ room limit (some e) w)
      × ((count_send v limit e).0.window ≤ v)
count_send-room limit v w e one reached = elim (Bool-cases (e.window == v)) [
  | inr h ↦ ground arith
  | inl h ↦ elim (Bool-cases (leb limit e.count)) [ inl g ↦ ground arith | inr g ↦ ground arith ]
]

found-room :
    (limit v w : ℕ) (o : Option SendCount)
    → room limit (some (or_value (record { window = v; count = 0 }) o)) w ≤ room limit o w
found-room limit v w none = ground arith
found-room limit v w (some e) = omega arith

found-Reached :
    (floor v : ℕ) (o : Option SendCount)
    → window_of 60 floor ≤ v
    → Reached floor o
    → (or_value (record { window = v; count = 0 }) o).window ≤ v
found-Reached floor v none le reached = omega arith
found-Reached floor v (some e) le reached = omega arith

later-Reached :
    (floor now : ℕ) (o : Option SendCount) → floor ≤ now → Reached floor o → Reached now o
later-Reached floor now none le reached = tt
later-Reached floor now (some e) le reached = omega (arith, window_mono floor now le)

-- One more event, where it belongs to the key and where it does not.
pub counted :
    (b same win : Bool) (rest after before top : ℕ)
    → same ≡ true
    → rest ≤ after
    → (if b && win then suc after else after) ≤ before
    → before ≤ top
    → (if b && (same && win) then suc rest else rest) ≤ top
counted b same win rest after before top h r c f = ground (arith, h)

pub uncounted :
    (b same win : Bool) (rest top : ℕ)
    → same ≡ false
    → rest ≤ top
    → (if b && (same && win) then suc rest else rest) ≤ top
uncounted b same win rest top h r = ground (arith, h)

sent-room :
    (limit floor : ℕ) (m : Entries SendCount) (calls : List (Text × ℕ)) (key : Text) (w : ℕ)
    → 1 ≤ limit
    → InOrder floor calls
    → Reached floor (lookup key m)
    → sent limit m calls key w ≤ room limit (lookup key m) w
unfolding sent send_throttle_allows compute_or_insert
sent-room limit floor m [] key w one order reached = omega arith
sent-room limit floor m ((k, now) ∷ calls) key w one (le, order) reached =
    let v = window_of 60 now in
    let e = or_value (record { window = v; count = 0 }) (lookup k m) in
    let m' = put k (count_send v limit e).0 m in
    let now_found = lookup-put k key (count_send v limit e).0 m in
    elim (Bool-cases (text_eq k key)) [
      | inl h ↦
          let same = (text_eq_iff k key).0 h in
          let here : lookup key m' ≡ some (count_send v limit e).0 = now_found ∙ rw h in
          let reached_k = subst (λ x. Reached floor (lookup x m)) (sym same) reached in
          let (count, next) =
            count_send-room limit v w e one
              (found-Reached floor v (lookup k m) (window_mono floor now le) reached_k) in
          let rest =
            sent-room limit now m' calls key w one order (subst (Reached now) (sym here) next) in
          let first = found-room limit v w (lookup k m) in
          counted (count_send v limit e).1 (text_eq k key) (v == w) (sent limit m' calls key w)
            (room limit (some (count_send v limit e).0) w) (room limit (some e) w)
            (room limit (lookup key m) w) h
            (subst (λ o. sent limit m' calls key w ≤ room limit o w) here rest) count
            (subst (λ x. room limit (some e) w ≤ room limit (lookup x m) w) same first)
      | inr h ↦
          let there : lookup key m' ≡ lookup key m = now_found ∙ rw h in
          let rest =
            sent-room limit now m' calls key w one order (
              subst (Reached now) (sym there)
                (later-Reached floor now (lookup key m) le reached)) in
          let bound = subst (λ o. sent limit m' calls key w ≤ room limit o w) there rest in
          uncounted (count_send v limit e).1 (text_eq k key) (v == w) (sent limit m' calls key w)
            (room limit (lookup key m) w) h bound
    ]

-- From an empty cache that drops no entry, with a positive limit and requests in the order of the
-- clock, whatever other recipients are asked for in between, at most `limit` requests for one
-- recipient pass in one window.
pub sent-limit :
    (limit floor : ℕ) (calls : List (Text × ℕ)) (key : Text) (w : ℕ)
    → 1 ≤ limit
    → InOrder floor calls
    → sent limit [] calls key w ≤ limit
sent-limit limit floor calls key w one order = sent-room limit floor [] calls key w one order tt
