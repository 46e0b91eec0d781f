-- ===== src/Revocation/Lasting.antt =====
-- A revocation in src/jwt.rs lasts: through other calls, collections, restarts and evictions.
use janux.Common.{
  Bool, Bool-cases, List, Option-cases, Text, [], all, ap, arith, false, if◌then◌else◌, inl, inr,
  is_some, lookup, ltb, lt→ltb, none, not, refl, retain, some, subst, sym, text_eq, text_eq_iff,
  text_eq_refl, true, ℕ, ◌<◌, ◌==◌, ◌||◌, ◌∙◌, ◌∷◌, ◌≡◌, ◌≤◌,
}
use janux.Ephem.{drop_entry, lookup-drop_entry}
use janux.Revocation.{
  Store, retained_until, invalid_raw, read_through, is_valid, prune, gc, create, Event, revoke,
  check, collect, restart, evict, after, run,
}

-- The identifier has a row, and each of its rows is kept up to `until`.
abbrev pub Recorded : Text → ℕ → List (Text × ℕ) → Type 0
Recorded key until rows =
    (lookup key rows ≡ some until) × (all (λ r. not (text_eq r.0 key) || r.1 == until) rows ≡ true)

-- The clock readings of the events are not after `limit`.
abbrev pub Before : ℕ → List Event → Type 0
Before limit [] = Unit
Before limit (collect now ∷ events) = (now ≤ limit) × Before limit events
Before limit (_ ∷ events) = Before limit events

absent-all :
    (key : Text) (until : ℕ) (rows : List (Text × ℕ))
    → lookup key rows ≡ none
    → all (λ r. not (text_eq r.0 key) || r.1 == until) rows ≡ true
absent-all key until [] e = refl
absent-all key until ((k, u) ∷ rows) e =
    ground (arith, e, absent-all key until rows (ground (arith, e)))

cons-Recorded :
    (key id : Text) (until u : ℕ) (rows : List (Text × ℕ))
    → lookup id rows ≡ none
    → Recorded key until rows
    → Recorded key until ((id, u) ∷ rows)
cons-Recorded key id until u rows free (found, same) = elim (Bool-cases (text_eq id key)) [
  | inl h ↦
      let clash : none ≡ some until =
        sym free ∙ ap (λ k. lookup k rows) ((text_eq_iff id key).0 h) ∙ found in
      absurd (cc)
  | inr h ↦ rw h (found, same)
]

all-retain {ℓ} :
    {A : Type ℓ} (p q : A → Bool) (xs : List A) → all p xs ≡ true → all p (retain q xs) ≡ true
all-retain p q [] h = refl
all-retain p q (x ∷ xs) h = ground (arith, h, all-retain p q xs (ground (arith, h)))

drop_entry-Recorded :
    (key id : Text) (until : ℕ) (rows : List (Text × ℕ))
    → text_eq id key ≡ false
    → Recorded key until rows
    → Recorded key until (drop_entry id rows)
drop_entry-Recorded key id until rows ne (found, same) =
    (lookup-drop_entry id key rows ∙ rw ne found, all-retain _ _ rows same)

prune-Recorded :
    (key : Text) (until : ℕ) (expired : List (Text × ℕ)) (s : Store)
    → all (λ r. not (text_eq r.0 key)) expired ≡ true
    → Recorded key until s.rows
    → Recorded key until (prune expired s).rows
unfolding prune
prune-Recorded key until [] s others h = h
prune-Recorded key until ((id, u) ∷ expired) s others h =
    prune-Recorded key until expired
      (record { rows = drop_entry id s.rows; cache = drop_entry id s.cache })
      (ground (arith, others)) (drop_entry-Recorded key id until s.rows (ground (arith, others)) h)

expired-others :
    (key : Text) (until now : ℕ) (rows : List (Text × ℕ))
    → now ≤ until
    → all (λ r. not (text_eq r.0 key) || r.1 == until) rows ≡ true
    → all (λ r. not (text_eq r.0 key)) (retain (λ r. ltb r.1 now) rows) ≡ true
expired-others key until now [] le h = refl
expired-others key until now ((id, u) ∷ rows) le h =
    ground (arith, h, expired-others key until now rows le (ground (arith, h)))

module _ (digest : Text → Text) (latest : ℕ) (key : Text) (until : ℕ) where
  invalid_raw-Recorded :
      (s : Store) (id : Text) (exp : ℕ) (fails : Bool)
      → Recorded key until s.rows
      → Recorded key until (invalid_raw digest latest s id exp fails).0.rows
  unfolding invalid_raw
  invalid_raw-Recorded s id exp true h = h
  invalid_raw-Recorded s id exp false h = elim (Option-cases (lookup (digest id) s.rows)) [
    | inl free ↦
        rw (free, invalid_raw)
          (cons-Recorded key (digest id) until (retained_until latest exp) s.rows free h)
    | inr (u, taken) ↦ rw (taken, invalid_raw) h
  ]

  read_through-rows :
      (ids : List Text) (s : Store) (now : ℕ)
      → (read_through digest latest ids s now).0.rows ≡ s.rows
  unfolding read_through
  read_through-rows [] s now = refl
  read_through-rows (id ∷ ids) s now = elim (Option-cases (lookup id s.rows)) [
    | inl h ↦ rw (h, read_through) (read_through-rows ids s now)
    | inr (u, h) ↦ elim (Bool-cases (ltb now u)) [
      | inl live ↦ rw (h, live, read_through) refl
      | inr dead ↦ rw (h, dead, read_through) (read_through-rows ids s now)
    ]
  ]

  is_valid-rows :
      (s : Store) (token : Text) (now : ℕ) → (is_valid digest latest s token now).0.rows ≡ s.rows
  unfolding is_valid
  is_valid-rows s token now = elim (Bool-cases (is_some (lookup (digest token) s.cache))) [
    | inl h ↦ rw (h, is_valid)
    | inr h ↦ elim (Bool-cases (is_some (lookup token s.cache))) [
      | inl g ↦ rw (h, g, is_valid)
      | inr g ↦ rw (h, g, is_valid) (read_through-rows (digest token ∷ token ∷ []) s now)
    ]
  ]

  gc-Recorded :
      (s : Store) (now : ℕ)
      → now ≤ until
      → Recorded key until s.rows
      → Recorded key until (gc s now).rows
  unfolding gc
  gc-Recorded s now le h =
      prune-Recorded key until (retain (λ r. ltb r.1 now) s.rows) s
        (expired-others key until now s.rows le h.1) h

  run-Recorded :
      (events : List Event) (s : Store)
      → Before until events
      → Recorded key until s.rows
      → Recorded key until (run digest latest s events).rows
  unfolding run after create
  run-Recorded [] s b h = h
  run-Recorded (revoke id exp fails ∷ events) s b h =
      run-Recorded events _ b (invalid_raw-Recorded s id exp fails h)
  run-Recorded (check token now ∷ events) s b h =
      run-Recorded events _ b (subst (Recorded key until) (sym (is_valid-rows s token now)) h)
  run-Recorded (collect now ∷ events) s (le, b) h = run-Recorded events _ b (gc-Recorded s now le h)
  run-Recorded (restart now ∷ events) s b h = run-Recorded events (create s.rows now) b h
  run-Recorded (evict k ∷ events) s b h =
      run-Recorded events (record s { cache = drop_entry k s.cache }) b h

module _ (digest : Text → Text) (latest : ℕ) (s s' : Store) (id : Text) (exp : ℕ)
    (fails : Bool) where
  abbrev until : ℕ
  until = retained_until latest exp

  revoked-Recorded :
      invalid_raw digest latest s id exp fails ≡ (s', some true)
      → Recorded (digest id) until s'.rows
  unfolding invalid_raw
  revoked-Recorded e =
      let won : (invalid_raw digest latest s id exp fails).1 ≡ some true = ap (λ x. x.1) e in
      elim (Bool-cases fails) [
        | inl h ↦ absurd (ground (arith, rw (h, invalid_raw) at won))
        | inr h ↦ elim (Option-cases (lookup (digest id) s.rows)) [
          | inr (u, taken) ↦ absurd (ground (arith, rw (h, taken, invalid_raw) at won))
          | inl free ↦
              let rows : s'.rows ≡ (digest id, until) ∷ s.rows =
                ap (λ x. x.0.rows) (sym e) ∙ rw (h, free, invalid_raw) in
              subst (Recorded (digest id) until) (sym rows) (
                rw (text_eq_refl (digest id)),
                ground (arith, absent-all (digest id) until s.rows free),
              )
        ]
      ]

  -- Once a call has revoked an identifier, every check of it up to the end of its retention says so,
  -- whatever calls, collections, restarts and evictions come in between, as long as no clock reading
  -- of a collection is later than that end.
  pub is_valid-revoked :
      (events : List Event) (now : ℕ)
      → invalid_raw digest latest s id exp fails ≡ (s', some true)
      → Before (retained_until latest exp) events
      → now < retained_until latest exp
      → (is_valid digest latest (run digest latest s' events) id now).1 ≡ true
  unfolding is_valid read_through
  is_valid-revoked events now e b lt =
      let later = run digest latest s' events in
      let found =
        (run-Recorded digest latest (digest id) until events s' b (revoked-Recorded e)).0 in
      let live : ltb now until ≡ true = lt→ltb now until lt in
      elim (Bool-cases (is_some (lookup (digest id) later.cache))) [
        | inl h ↦ rw (h, is_valid)
        | inr h ↦ elim (Bool-cases (is_some (lookup id later.cache))) [
          | inl g ↦ rw (h, g, is_valid)
          | inr g ↦ rw (h, g, is_valid) (rw (found, live, read_through))
        ]
      ]

  -- Once a call has revoked an identifier, no later call on it wins, whatever events come in between,
  -- as long as no clock reading of a collection is later than the end of its retention.
  pub invalid_raw-once :
      (events : List Event) (later : ℕ) (broken : Bool)
      → invalid_raw digest latest s id exp fails ≡ (s', some true)
      → Before (retained_until latest exp) events
      → (invalid_raw digest latest (run digest latest s' events) id later broken).1
        ≡ (if broken then none else some false)
  unfolding invalid_raw
  invalid_raw-once events later broken e b =
      let found =
        (run-Recorded digest latest (digest id) until events s' b (revoked-Recorded e)).0 in
      elim (Bool-cases broken) [ inl h ↦ rw (h, invalid_raw) | inr h ↦ rw (h, found, invalid_raw) ]
