-- ===== src/Revocation.antt =====
-- src/jwt.rs: the store of revoked tokens and markers, `InvalidJwt`: a table and a cache in front of
-- it. Times are nanoseconds since 1970. The digest (SHA-256 in base64) and the latest time that a
-- timestamp holds are parameters; a call on the table may fail where the code passes its error on.
pub mod Deadline
pub mod Lasting
use janux.Common.{
  Bool, List, Option, Text, [], false, if◌then◌else◌, is_some, leb, lookup, ltb, none, retain, some,
  true, ℕ, ◌*◌, ◌+◌, ◌^◌, ◌∷◌,
}
use janux.Ephem.{Entries, drop_entry, insert}

-- Rows of an identifier and the time up to which it is kept.
pub record Store : Type 0 where
  pub rows : List (Text × ℕ)
  pub cache : Entries ℕ

abbrev pub second : ℕ
second = 10 ^ 9

abbrev pub verification_grace_minutes : ℕ
verification_grace_minutes = 2

abbrev pub checked_add : ℕ → ℕ → ℕ → Option ℕ
checked_add latest t d = if leb (t + d) latest then some (t + d) else none

abbrev pub or_else : Option ℕ → ℕ → ℕ
or_else none t = t
or_else (some s) t = s

-- The time up to which the record of a token that expires at `exp` is kept.
unfoldable pub retained_until : ℕ → ℕ → ℕ
retained_until latest exp =
    let extended =
      or_else (checked_add latest exp (verification_grace_minutes * 60 * second)) exp in
    or_else (checked_add latest extended second) extended

abbrev pub cache_insert : Text → ℕ → Entries ℕ → Entries ℕ
cache_insert key until cache = (insert cache key until).0

module _ (digest : Text → Text) (latest : ℕ) where
  -- The result is none where the table failed, else whether this call revoked the identifier.
  unfoldable pub invalid_raw : Store → Text → ℕ → Bool → Store × Option Bool
  unfolding insert
  invalid_raw store id exp fails =
      let key = digest id in
      let until = retained_until latest exp in
      if fails then (store, none) else (elim (lookup key store.rows) [
        | none ↦ (
          record { rows = (key, until) ∷ store.rows; cache = cache_insert key until store.cache },
          some true,
        )
        | some _ ↦ (record store { cache = cache_insert key until store.cache }, some false)
      ])

  -- The loop over the two identifiers that a record may have.
  unfoldable pub read_through : List Text → Store → ℕ → Store × Bool
  unfolding insert
  read_through [] store now = (store, false)
  read_through (id ∷ ids) store now =
      let rest = read_through ids store now in
      elim (lookup id store.rows) [
        | none ↦ rest
        | some until ↦
            if ltb now until
            then (record store { cache = cache_insert id until store.cache }, true)
            else rest
      ]

  unfoldable pub is_valid : Store → Text → ℕ → Store × Bool
  unfolding read_through
  is_valid store token now =
      if is_some (lookup (digest token) store.cache)
      then (store, true)
      else if is_some (lookup token store.cache)
      then (store, true)
      else read_through (digest token ∷ token ∷ []) store now

-- The loop over the expired rows.
unfoldable pub prune : List (Text × ℕ) → Store → Store
prune [] store = store
prune ((id, _) ∷ expired) store =
    prune expired (record { rows = drop_entry id store.rows; cache = drop_entry id store.cache })

unfoldable pub gc : Store → ℕ → Store
unfolding prune
gc store now = prune (retain (λ r. ltb r.1 now) store.rows) store

abbrev pub hydrate : List (Text × ℕ) → Entries ℕ → Entries ℕ
hydrate [] cache = cache
hydrate ((id, until) ∷ rows) cache = hydrate rows (cache_insert id until cache)

-- `InvalidJwt::create` on an existing table.
unfoldable pub create : List (Text × ℕ) → ℕ → Store
create rows now = record { rows = rows; cache = hydrate (retain (λ r. leb now r.1) rows) [] }

-- What happens to the store while the server runs: calls, a restart, an entry the cache drops.
pub data Event : Type 0 where
  revoke : Text → ℕ → Bool → Event
  check : Text → ℕ → Event
  collect : ℕ → Event
  restart : ℕ → Event
  evict : Text → Event

module _ (digest : Text → Text) (latest : ℕ) where
  unfoldable pub after : Store → Event → Store
  unfolding invalid_raw is_valid gc create
  after store (revoke id exp fails) = (invalid_raw digest latest store id exp fails).0
  after store (check token now) = (is_valid digest latest store token now).0
  after store (collect now) = gc store now
  after store (restart now) = create store.rows now
  after store (evict key) = record store { cache = drop_entry key store.cache }

  unfoldable pub run : Store → List Event → Store
  unfolding after
  run store [] = store
  run store (e ∷ events) = run (after store e) events
