-- ===== src/Hosts.antt =====
-- src/utils.rs: the host and the port a request names, the tenant domain it selects, and the scope
-- of cookies.
pub mod Ports
pub mod Suffix
pub mod Resolve
use janux.Common.{
  Bool, List, Option, Text, [], all, chars, drop, ends_with, false, if◌then◌else◌, is_empty, leb,
  length, ltb, none, not, some, split, starts_with, text_eq, trim, true, ℕ, ◌&&◌, ◌++◌, ◌+◌, ◌-◌,
  ◌==◌, ◌||◌, ◌∷◌,
}

-- The text up to and with the first `c`, and the text after it.
abbrev pub split_first : ℕ → Text → Option (Text × Text)
split_first c [] = none
split_first c (x ∷ xs) =
    if x == c
    then some (x ∷ [], xs)
    else elim (split_first c xs) [ some (a, b) ↦ some (x ∷ a, b) | none ↦ none ]

-- The text before the last `c`, and the text after it.
abbrev pub split_last : ℕ → Text → Option (Text × Text)
split_last c [] = none
split_last c (x ∷ xs) = elim (split_last c xs) [
  | some (a, b) ↦ some (x ∷ a, b)
  | none ↦ if x == c then some ([], xs) else none
]

abbrev pub is_ascii_digit : ℕ → Bool
is_ascii_digit c = leb b'0' c && leb c b'9'

abbrev pub bracketed : Text → Text → Option (Text × Text)
bracketed host [] = none
bracketed host (c ∷ port) = if c == b':' then some (host, port) else none

abbrev pub plain_port : Text → Text → Option (Text × Text)
plain_port host port =
    if not (is_empty host) && (not (is_empty port) && all is_ascii_digit port)
    then some (host, port)
    else none

unfoldable pub split_port : Text → Option (Text × Text)
split_port host = elim (split_first b']' host) [
  | some (a, rest) ↦ bracketed a rest
  | none ↦ elim (split_last b':' host) [ some (a, port) ↦ plain_port a port | none ↦ none ]
]

unfoldable pub strip_port : Text → Option Text
unfolding split_port
strip_port host = elim (split_port host) [ some (bare, _) ↦ some bare | none ↦ none ]

unfoldable pub strip_default_port : Text → Text → Text
unfolding split_port
strip_default_port host scheme =
    let default = if text_eq scheme (chars "https") then chars "443" else chars "80" in
    elim (split_port host) [
      | some (bare, port) ↦ if text_eq port default then bare else host
      | none ↦ host
    ]

abbrev pub head_or_empty : List Text → Text
head_or_empty [] = []
head_or_empty (x ∷ xs) = x

abbrev pub unless_empty : Text → List Text
unless_empty [] = []
unless_empty (x ∷ xs) = (x ∷ xs) ∷ []

abbrev pub header_host : Option Text → List Text
header_host none = []
header_host (some host) = unless_empty (trim host)

-- `trusts` is `trusts_forwarded` of the server state; the headers are those that are valid text.
unfoldable pub host_candidates : Bool → Option Text → Option Text → List Text
host_candidates trusts forwarded host =
    (if trusts
      then (elim forwarded [
        | none ↦ []
        | some xfh ↦ unless_empty (trim (head_or_empty (split b',' xfh)))
      ])
      else [])
    ++ header_host host

-- The candidate without its port, where that is registered.
abbrev pub or_bare :
    (Text → Bool) → Text → Option Text → Option (Text × Text) → Option (Text × Text)
or_bare router candidate none later = later
or_bare router candidate (some bare) later = if router bare then some (candidate, bare) else later

-- `router` tells which domains are registered.
unfoldable pub resolve_host : (Text → Bool) → List Text → Option (Text × Text)
resolve_host router [] = none
resolve_host router (candidate ∷ rest) =
    let later = resolve_host router rest in
    if router candidate
    then some (candidate, candidate)
    else or_bare router candidate (strip_port candidate) later

abbrev pub texts_eq : List Text → List Text → Bool
texts_eq [] [] = true
texts_eq [] (_ ∷ _) = false
texts_eq (_ ∷ _) [] = false
texts_eq (s ∷ ss) (t ∷ ts) = text_eq s t && texts_eq ss ts

unfoldable pub domain_matches : Text → Text → Bool
domain_matches host parent =
    if text_eq host parent
    then true
    else let host_labels = split b'.' host in
      let parent_labels = split b'.' parent in
      if ltb (length host_labels) (length parent_labels + 1)
      then false
      else texts_eq (drop (length host_labels - length parent_labels) host_labels) parent_labels

abbrev pub is_ascii_alphanumeric : ℕ → Bool
is_ascii_alphanumeric c =
    is_ascii_digit c || (leb b'A' c && leb c b'Z') || (leb b'a' c && leb c b'z')

-- The length counts code points, which are bytes in a label that passes the second test.
unfoldable pub valid_dns_label : Text → Bool
valid_dns_label label =
    (leb 1 (length label) && leb (length label) 63)
    && (all (λ b. is_ascii_alphanumeric b || b == b'-') label
        && (not (starts_with b'-' label) && not (ends_with b'-' label)))

abbrev pub contains_dots : Text → Bool
contains_dots [] = false
contains_dots (x ∷ []) = false
contains_dots (x ∷ y ∷ ys) = (x == b'.' && y == b'.') || contains_dots (y ∷ ys)

pub data ScopeError : Type 0 where
  scope_empty bad_boundary equals_host too_few_labels invalid_label not_covered : ScopeError

-- None where the scope is accepted.
unfoldable pub validate_cookie_scope : Text → Text → Option ScopeError
validate_cookie_scope scope host =
    let s = trim scope in
    let labels = split b'.' s in
    if is_empty s
    then some scope_empty
    else if (starts_with b'.' s || ends_with b'.' s) || contains_dots s
    then some bad_boundary
    else if text_eq s (trim host)
    then some equals_host
    else if ltb (length labels) 2
    then some too_few_labels
    else if not (all valid_dns_label labels)
    then some invalid_label
    else if not (domain_matches host s)
    then some not_covered
    else none
