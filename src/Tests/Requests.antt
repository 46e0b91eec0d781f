-- ===== src/Tests/Requests.antt =====
-- Runs of the theorems on hosts, cookie scopes and pages.
use janux.Common.{
  Bool, In, List, Text, [], arith, chars, drop, length, none, refl, some, split, text_eq, trim,
  true, ℕ, ◌++◌, ◌↔◌, ◌∷◌, ◌≡◌, ◌≢◌, ◌≤◌, ◌⊎◌,
}
use janux.Hosts.{
  split_port, strip_port, resolve_host, domain_matches, valid_dns_label, validate_cookie_scope,
}
use janux.Hosts.Ports.{split_port-plain}
use janux.Hosts.Suffix.{Under, domain_matches_iff, validate_cookie_scope-accepts}
use janux.Paging.Walk.{walk, walk-all}

split_port-plain_example :
    split_port (chars "a.io" ++ (b':' ∷ chars "443")) ≡ some (chars "a.io", chars "443")
split_port-plain_example = split_port-plain (chars "a.io") (chars "443") refl refl refl refl

domain_matches_iff_example :
    (domain_matches (chars "app.a.io") (chars "a.io") ≡ true)
    ↔ ((chars "app.a.io" ≡ chars "a.io") ⊎ Under (chars "app.a.io") (chars "a.io"))
domain_matches_iff_example = domain_matches_iff (chars "app.a.io") (chars "a.io")

scope_accepted : validate_cookie_scope (chars " a.io") (chars "app.a.io") ≡ none
unfolding validate_cookie_scope split domain_matches valid_dns_label
scope_accepted = refl

validate_cookie_scope-accepts_example :
    (trim (chars " a.io") ≢ trim (chars "app.a.io"))
    × (2 ≤ length (split b'.' (trim (chars " a.io"))))
    × ((label : Text) → In label (split b'.' (trim (chars " a.io"))) → valid_dns_label label ≡ true)
    × ((chars "app.a.io" ≡ trim (chars " a.io")) ⊎ Under (chars "app.a.io") (trim (chars " a.io")))
validate_cookie_scope-accepts_example =
    validate_cookie_scope-accepts (chars " a.io") (chars "app.a.io") scope_accepted

abbrev router : Text → Bool
router d = text_eq d (chars "a.io")

abbrev asked : List Text
asked = chars "proxy.net" ∷ chars "a.io:8080" ∷ []

resolved : resolve_host router asked ≡ some (chars "a.io:8080", chars "a.io")
unfolding resolve_host strip_port split_port
resolved = refl

abbrev rows : List ℕ
rows = 1 ∷ 2 ∷ 3 ∷ 4 ∷ 5 ∷ []

walk-all_example : walk 5 rows 2 1 ≡ drop 1 rows
walk-all_example = walk-all 5 rows 2 1 (omega arith) (omega arith) (omega arith)
