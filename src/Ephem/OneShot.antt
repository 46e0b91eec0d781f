-- ===== src/Ephem/OneShot.antt =====
-- What src/cache.rs promises of each call.
use janux.Common.{
  Option-cases, Text, arith, if◌then◌else◌, inl, inr, is_some, lookup, none, not, refl, some,
  text_eq, text_eq_iff, ◌≡◌, ◌⊎◌,
}
use janux.Ephem.{
  Entries, put, insert, get, get_one_shot, compute_with_slot, get_mut, or_value, compute_or_insert,
  lookup-drop_entry, lookup-put,
}

module _ {ℓ} {V : Type ℓ} where
  -- A consumed entry is gone for every later reader, and the entries of other keys stay.
  pub get_one_shot-get :
      (m : Entries V) (key other : Text)
      → get (get_one_shot m key).0 other ≡ (if text_eq key other then none else get m other)
  unfolding get get_one_shot
  get_one_shot-get m key other = lookup-drop_entry key other m

  -- An insert never overwrites: it succeeds exactly when the key is absent, and the value that a
  -- reader then finds is the old one where there was one.
  pub insert-get :
      (m : Entries V) (key other : Text) (value : V)
      → ((insert m key value).1 ≡ not (is_some (get m key)))
        × (get (insert m key value).0 other
            ≡ (if text_eq key other then some (or_value value (get m key)) else get m other))
  unfolding get insert
  insert-get m key other value = elim (Option-cases (lookup key m)) [
    | inl h ↦ rw (h, insert) (refl, lookup-put key other value m)
    | inr (v, h) ↦ rw (h, insert) (refl, ground (arith, h, text_eq_iff key other))
  ]

  -- The per-key compute with an initial value always runs the update, on the value that is there
  -- or else on the initial one, so `expect` never fails; the other entries stay.
  pub compute_or_insert-computes {κ} :
      {R : Type κ} (m : Entries V) (key other : Text) (init : V) (f : V → V × R)
      → (compute_with_slot m key (some init) f
          ≡ ((compute_or_insert m key init f).0, some (compute_or_insert m key init f).1))
        × (get (compute_or_insert m key init f).0 other
            ≡ (if text_eq key other then some (f (or_value init (get m key))).0 else get m other))
  unfolding get compute_with_slot compute_or_insert
  compute_or_insert-computes m key other init f = elim (Option-cases (lookup key m)) [
    | inl h ↦
        (rw (h, compute_with_slot), lookup-put key other (f (or_value init (lookup key m))).0 m)
    | inr (v, h) ↦
        (rw (h, compute_with_slot), lookup-put key other (f (or_value init (lookup key m))).0 m)
  ]

  -- Updating an absent key changes nothing and says so; updating a present one is the read-write.
  pub get_mut-get {κ} :
      {R : Type κ} (m : Entries V) (key : Text) (f : V → V × R)
      → ((get m key ≡ none) × (get_mut m key f ≡ (m, none)))
        ⊎ ((v : V) × (get m key ≡ some v) × (get_mut m key f ≡ (put key (f v).0 m, some (f v).1)))
  unfolding get get_mut compute_with_slot
  get_mut-get m key f = elim (Option-cases (lookup key m)) [
    | inl h ↦ inl (h, rw (h, get_mut, compute_with_slot))
    | inr (v, h) ↦ inr (v, h, rw (h, get_mut, compute_with_slot))
  ]
