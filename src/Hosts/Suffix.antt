-- ===== src/Hosts/Suffix.antt =====
-- The suffix test on domains of src/utils.rs, and the scopes that `validate_cookie_scope` accepts.
use janux.Common.{
  Bool, In, List, Text, [], all, all-In, ap, arith, drop, ends_with, false, if◌then◌else◌, is_empty,
  join, join-append, join-split, length, length-append, length-take, ltb, none, not, refl, some,
  split, split-append, split-ne-nil, starts_with, sym, take, take-append-drop, text_eq, text_eq_iff,
  trim, true, ◌++◌, ◌+◌, ◌-◌, ◌||◌, ◌↔◌, ◌∙◌, ◌∷◌, ◌≡◌, ◌≢◌, ◌≤◌, ◌⊎◌,
}
use janux.Hosts.{
  texts_eq, domain_matches, valid_dns_label, validate_cookie_scope, contains_dots, scope_empty,
  bad_boundary, equals_host, too_few_labels, invalid_label, not_covered,
}

texts_eq_iff : (ss ts : List Text) → (texts_eq ss ts ≡ true) ↔ (ss ≡ ts)
texts_eq_iff [] [] = (λ _. refl, λ _. refl)
texts_eq_iff [] (t ∷ ts) = (λ e. cc, λ e. cc)
texts_eq_iff (s ∷ ss) [] = (λ e. cc, λ e. cc)
texts_eq_iff (s ∷ ss) (t ∷ ts) = ground (arith, text_eq_iff s t, texts_eq_iff ss ts)

drop-append {ℓ} : {A : Type ℓ} (xs ys : List A) → drop (length xs) (xs ++ ys) ≡ ys
drop-append [] ys = refl
drop-append (x ∷ xs) ys = drop-append xs ys

some_length {ℓ} : {A : Type ℓ} (xs : List A) → xs ≢ [] → 1 ≤ length xs
some_length [] h = absurd (h refl)
some_length (x ∷ xs) h = omega arith

-- Proper suffixes, at a label boundary.
abbrev pub Under : Text → Text → Type 0
Under host parent = (p : Text) × (host ≡ p ++ (b'.' ∷ parent))

labels_iff :
    (host parent : Text)
    → ((ltb (length (split b'.' host)) (length (split b'.' parent) + 1) ≡ false)
        × (drop (length (split b'.' host) - length (split b'.' parent)) (split b'.' host)
            ≡ split b'.' parent))
      ↔ Under host parent
labels_iff host parent = (
  λ (long, tail).
      let hl = split b'.' host in
      let n = length hl - length (split b'.' parent) in
      let front = take n hl in
      let whole : front ++ split b'.' parent ≡ hl =
        ap (λ ls. front ++ ls) (sym tail) ∙ take-append-drop n hl in
      let some_label : front ≢ [] = λ e. ground (arith, long, length-take n hl, ap length e) in
      (
        join b'.' front,
        sym (join-split b'.' host)
            ∙ ap (join b'.') (sym whole)
            ∙ join-append b'.' front (split b'.' parent) some_label (split-ne-nil b'.' parent)
            ∙ ap (λ s. join b'.' front ++ (b'.' ∷ s)) (join-split b'.' parent),
      ),
  λ (p, e).
      let cut : split b'.' host ≡ split b'.' p ++ split b'.' parent =
        ap (split b'.') e ∙ split-append b'.' p parent in
      let count = length-append (split b'.' p) (split b'.' parent) in
      let shift : length (split b'.' p ++ split b'.' parent) - length (split b'.' parent)
          ≡ length (split b'.' p) =
        omega (arith, count) in
      rw cut (
        ground (arith, count, some_length (split b'.' p) (split-ne-nil b'.' p)),
        rw shift (drop-append (split b'.' p) (split b'.' parent)),
      ),
)

-- A host matches a domain exactly when it is the domain or ends in a dot and the domain.
pub domain_matches_iff :
    (host parent : Text)
    → (domain_matches host parent ≡ true) ↔ ((host ≡ parent) ⊎ Under host parent)
unfolding domain_matches
domain_matches_iff host parent =
    let labels = labels_iff host parent in
    let hl = split b'.' host in
    let pl = split b'.' parent in
    ground
      (arith, text_eq_iff host parent, labels, texts_eq_iff (drop (length hl - length pl) hl) pl)

-- An accepted scope, trimmed, has at least two labels, all of them valid, is not the trimmed host,
-- and the host is the scope or ends in a dot and the scope.
pub validate_cookie_scope-accepts :
    (scope host : Text)
    → validate_cookie_scope scope host ≡ none
    → (trim scope ≢ trim host)
      × (2 ≤ length (split b'.' (trim scope)))
      × ((label : Text) → In label (split b'.' (trim scope)) → valid_dns_label label ≡ true)
      × ((host ≡ trim scope) ⊎ Under host (trim scope))
unfolding validate_cookie_scope
validate_cookie_scope-accepts scope host e =
    let s = trim scope in
    let labels = split b'.' s in
    let facts =
      conditions (is_empty s) ((starts_with b'.' s || ends_with b'.' s) || contains_dots s)
        (text_eq s (trim host)) (ltb (length labels) 2) (all valid_dns_label labels)
        (domain_matches host s) e in
    let (ne, long, valid, covered) = facts in
    (
      λ h. ground (arith, (text_eq_iff s (trim host)).1 h, ne),
      ground (arith, long),
      λ label i. all-In valid_dns_label label labels valid i,
      (domain_matches_iff host s).0 covered,
    )
  where
    conditions :
        (a b same short valid covered : Bool)
        → (if a
            then some scope_empty
            else if b
            then some bad_boundary
            else if same
            then some equals_host
            else if short
            then some too_few_labels
            else if not valid
            then some invalid_label
            else if not covered
            then some not_covered
            else none)
          ≡ none
        → (same ≡ false) × (short ≡ false) × (valid ≡ true) × (covered ≡ true)
    conditions a b same short valid covered e = ground (arith, e)
