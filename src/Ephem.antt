-- ===== src/Ephem.antt =====
-- src/cache.rs: the cache of short-lived values. Its store (moka) runs the calls on one key one
-- after another; an entry it drops, by age or for space, is a `drop_entry`.
pub mod OneShot
use janux.Common.{
  Bool, List, Option, Text, [], arith, false, if◌then◌else◌, lookup, none, not, retain, some,
  text_eq, text_eq_iff, true, ◌∷◌, ◌≡◌,
}

abbrev pub Entries {ℓ} : Type ℓ → Type ℓ
Entries V = List (Text × V)

module _ {ℓ} {V : Type ℓ} where
  abbrev pub drop_entry : Text → Entries V → Entries V
  drop_entry key m = retain (λ e. not (text_eq e.0 key)) m

  abbrev pub put : Text → V → Entries V → Entries V
  put key value m = (key, value) ∷ drop_entry key m

  -- The Boolean is whether the key was new.
  unfoldable pub insert : Entries V → Text → V → Entries V × Bool
  insert m key value = elim (lookup key m) [ some _ ↦ (m, false) | none ↦ (put key value m, true) ]

  unfoldable pub get : Entries V → Text → Option V
  get m key = lookup key m

  unfoldable pub get_one_shot : Entries V → Text → Entries V × Option V
  get_one_shot m key = (drop_entry key m, lookup key m)

  abbrev pub apply {κ} : {R : Type κ} → Entries V → Text → V × R → Entries V × Option R
  apply m key (value, r) = (put key value m, some r)

  abbrev pub or_init : Option V → Option V → Option V
  or_init (some v) init = some v
  or_init none init = init

  unfoldable pub compute_with_slot {κ} :
      {R : Type κ} → Entries V → Text → Option V → (V → V × R) → Entries V × Option R
  compute_with_slot m key init f = elim (or_init (lookup key m) init) [
    | some value ↦ apply m key (f value)
    | none ↦ (m, none)
  ]

  unfoldable pub get_mut {κ} : {R : Type κ} → Entries V → Text → (V → V × R) → Entries V × Option R
  unfolding compute_with_slot
  get_mut m key f = compute_with_slot m key none f

  abbrev pub or_value : V → Option V → V
  or_value v none = v
  or_value v (some w) = w

  -- `compute_with_slot` with an initial value: the value is there, so `f` always runs.
  unfoldable pub compute_or_insert {κ} :
      {R : Type κ} → Entries V → Text → V → (V → V × R) → Entries V × R
  compute_or_insert m key init f =
      let (value, r) = f (or_value init (lookup key m)) in (put key value m, r)

  pub lookup-drop_entry :
      (key other : Text) (m : Entries V)
      → lookup other (drop_entry key m) ≡ (if text_eq key other then none else lookup other m)
  lookup-drop_entry key other [] = ground arith
  lookup-drop_entry key other ((k, v) ∷ m) = ground (
    arith,
    text_eq_iff k key,
    text_eq_iff k other,
    text_eq_iff key other,
    lookup-drop_entry key other m,
  )

  pub lookup-put :
      (key other : Text) (value : V) (m : Entries V)
      → lookup other (put key value m) ≡ (if text_eq key other then some value else lookup other m)
  lookup-put key other value m = ground (arith, lookup-drop_entry key other m)
