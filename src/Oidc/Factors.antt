-- ===== src/Oidc/Factors.antt =====
-- src/db.rs: the authentication methods and the class that a token reports for the factors of a
-- session. The set of factors is a list of its members.
use janux.Common.{
  Bool, List, Option, Text, [], chars, contains, false, find, if◌then◌else◌, is_empty, ltb, none,
  some, text_eq, true, ◌&&◌, ◌==◌, ◌||◌, ◌∷◌,
}

-- The order of `String`.
abbrev pub text_leb : Text → Text → Bool
text_leb [] t = true
text_leb (c ∷ cs) [] = false
text_leb (c ∷ cs) (d ∷ ds) = ltb c d || (c == d && text_leb cs ds)

abbrev pub insert_sorted : Text → List Text → List Text
insert_sorted t [] = t ∷ []
insert_sorted t (u ∷ us) = if text_leb t u then t ∷ u ∷ us else u ∷ insert_sorted t us

-- `sort`
abbrev pub sort : List Text → List Text
sort [] = []
sort (t ∷ ts) = insert_sorted t (sort ts)

abbrev pub cons_new : Text → List Text → List Text
cons_new t [] = t ∷ []
cons_new t (u ∷ us) = if text_eq t u then u ∷ us else t ∷ u ∷ us

-- `dedup`: one of each run of equal neighbours.
abbrev pub dedup : List Text → List Text
dedup [] = []
dedup (t ∷ ts) = cons_new t (dedup ts)

-- The method of a factor (RFC 8176).
unfoldable pub amr_value : Text → Option Text
amr_value label =
    if text_eq label (chars "passkey")
    then some (chars "hwk")
    else if text_eq label (chars "email")
    then some (chars "mca")
    else if text_eq label (chars "otp")
    then some (chars "sms")
    else if text_eq label (chars "totp")
    then some (chars "otp")
    else none

abbrev pub filter_map : (Text → Option Text) → List Text → List Text
filter_map f [] = []
filter_map f (t ∷ ts) = let rest = filter_map f ts in elim (f t) [ none ↦ rest | some u ↦ u ∷ rest ]

unfoldable pub amr_values : List Text → Option (List Text)
unfolding amr_value
amr_values mfa =
    let out = filter_map amr_value mfa in if is_empty out then none else some (dedup (sort out))

-- Strongest first, with the name that a token reports.
unfoldable pub strength_order : List (Text × Text)
strength_order =
    (chars "passkey", chars "passkey")
    ∷ (chars "totp", chars "totp")
    ∷ (chars "otp", chars "otp")
    ∷ (chars "email", chars "email")
    ∷ (chars "oauth2", chars "social")
    ∷ (chars "Social", chars "social")
    ∷ []

-- `min`
abbrev pub least : List Text → Option Text
least [] = none
least (t ∷ ts) = elim (least ts) [
  | none ↦ some t
  | some u ↦ if text_leb t u then some t else some u
]

abbrev pub or_least : Option (Text × Text) → List Text → Option Text
or_least none mfa = least mfa
or_least (some (_, external)) mfa = some external

unfoldable pub acr_value : List Text → Option Text
acr_value mfa =
    if is_empty mfa then none else or_least (find (λ p. contains p.0 mfa) strength_order) mfa
