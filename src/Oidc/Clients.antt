-- ===== src/Oidc/Clients.antt =====
-- src/idp.rs and src/oidc.rs: looking a client up and checking its secret. Verifying a secret
-- against a stored encoding (Argon2, none where the encoding is malformed), base64 and percent
-- decoding are parameters.
pub mod Authentic
use janux.Common.{
  Bool, List, Option, Text, [], chars, false, find, if◌then◌else◌, is_empty, ltb, map, none, not,
  retain, some, text_eq, true, ℕ, ◌&&◌, ◌==◌, ◌∷◌,
}
use janux.Oidc.{OAuth2Client}
use janux.Oidc.Scopes.{split_whitespace}

-- `get_by_id`, then the active flag.
unfoldable pub oauth2client_get : List OAuth2Client → Text → Option OAuth2Client
oauth2client_get clients id = elim (find (λ c. text_eq c.id id) clients) [
  | none ↦ none
  | some c ↦ if c.active then some c else none
]

-- A client and a URI that it registered.
unfoldable pub oauth2client_redirect_uris : List (Text × Text) → Text → List Text
oauth2client_redirect_uris rows id = map (λ r. r.1) (retain (λ r. text_eq r.0 id) rows)

unfoldable pub get_grant_types : OAuth2Client → List Text
unfolding split_whitespace
get_grant_types c = if is_empty c.grant_types then [] else split_whitespace c.grant_types

unfoldable pub get_response_types : OAuth2Client → List Text
unfolding split_whitespace
get_response_types c = if is_empty c.response_types then [] else split_whitespace c.response_types

unfoldable pub get_scope : OAuth2Client → List Text
unfolding split_whitespace
get_scope c = if is_empty c.scope then [] else split_whitespace c.scope

-- The errors of `authenticate_client`.
pub data AuthFault : Type 0 where
  missing_client_id unknown_client missing_secret malformed_hash wrong_secret client_mismatch
        unsupported_method :
      AuthFault

-- The halves of a `Basic` header, decoded and raw.
pub record Basic : Type 0 where
  pub id : Text
  pub id_raw : Text
  pub secret : Text
  pub secret_raw : Text

abbrev pub split_once : ℕ → Text → Option (Text × Text)
split_once c [] = none
split_once c (x ∷ xs) =
    let rest = split_once c xs in
    if x == c then some ([], xs) else (elim rest [ none ↦ none | some p ↦ some (x ∷ p.0, p.1) ])

abbrev pub strip_prefix : Text → Text → Option Text
strip_prefix [] s = some s
strip_prefix (p ∷ ps) [] = none
strip_prefix (p ∷ ps) (c ∷ cs) = if p == c then strip_prefix ps cs else none

abbrev pub or_empty : Option Text → Text
or_empty none = []
or_empty (some s) = s

pub data Authenticated : Type 0 where
  authenticated : OAuth2Client → Authenticated
  unauthenticated : AuthFault → Authenticated

abbrev pub previous_hash : OAuth2Client → ℕ → Option Text
previous_hash c now = elim c.secret_grace_until [
  | none ↦ none
  | some until ↦ if not (ltb now until) then none else (elim c.client_prev_secret_hash [
    | none ↦ none
    | some prev ↦ if is_empty prev then none else some prev
  ])
]

abbrev pub no_basic : Basic
no_basic = record { id = []; id_raw = []; secret = []; secret_raw = [] }

abbrev pub secret_verdict : Option Bool → Option AuthFault
secret_verdict none = some malformed_hash
secret_verdict (some true) = none
secret_verdict (some false) = some wrong_secret

module _ (verify_hash : Text → Text → Option Bool) where
  abbrev pub verify_previous : Option Text → Text → Option Bool
  verify_previous none attempted = some false
  verify_previous (some prev) attempted = verify_hash prev attempted

  -- The current hash, then the one before it up to the end of the grace window; `none` is the error
  -- of a malformed hash.
  unfoldable pub verify_secret_with_grace : OAuth2Client → Text → ℕ → Option Bool
  verify_secret_with_grace c attempted now = elim (verify_hash c.client_secret_hash attempted) [
    | none ↦ none
    | some true ↦ some true
    | some false ↦ verify_previous (previous_hash c now) attempted
  ]

  unfoldable pub verify_raw : OAuth2Client → Text → Option Text → ℕ → Option Bool
  unfolding verify_secret_with_grace
  verify_raw c secret none now = some false
  verify_raw c secret (some r) now =
      if text_eq r secret then some false else verify_secret_with_grace c r now

  unfoldable pub verify_client_secret : OAuth2Client → Text → Option Text → ℕ → Option Bool
  unfolding verify_secret_with_grace verify_raw
  verify_client_secret c secret raw now = elim (verify_secret_with_grace c secret now) [
    | none ↦ none
    | some true ↦ some true
    | some false ↦ verify_raw c secret raw now
  ]

  unfoldable pub verify_post : OAuth2Client → Option Text → ℕ → Option AuthFault
  unfolding verify_secret_with_grace
  verify_post c none now = some missing_secret
  verify_post c (some secret) now = secret_verdict (verify_secret_with_grace c secret now)

  unfoldable pub check_secret : OAuth2Client → Text → Option Text → ℕ → Option AuthFault
  unfolding verify_client_secret
  check_secret c secret raw now =
      if is_empty secret
      then some missing_secret
      else secret_verdict (verify_client_secret c secret raw now)

module _ (base64 percent : Text → Option Text) where
  abbrev pub basic_credential_decode : Text → Text
  basic_credential_decode s = elim (percent s) [ none ↦ s | some decoded ↦ decoded ]

  abbrev pub basic_of_pair : Option (Text × Text) → Basic
  basic_of_pair none = no_basic
  basic_of_pair (some (id, sec)) = record {
    id = basic_credential_decode id;
    id_raw = id;
    secret = basic_credential_decode sec;
    secret_raw = sec;
  }

  abbrev pub basic_of_decoded : Option Text → Basic
  basic_of_decoded none = no_basic
  basic_of_decoded (some s) = basic_of_pair (split_once b':' s)

  abbrev pub basic_of_header : Option Text → Basic
  basic_of_header none = no_basic
  basic_of_header (some h) = elim (strip_prefix (chars "Basic ") h) [
    | none ↦ no_basic
    | some encoded ↦ basic_of_decoded (base64 encoded)
  ]

module _ (verify_hash : Text → Text → Option Bool) (base64 percent : Text → Option Text) where
  unfoldable pub check_basic : OAuth2Client → Text → Option Text → Basic → ℕ → Option AuthFault
  unfolding check_secret
  check_basic c client_id body_secret b now =
      if not (is_empty b.id) && not (text_eq b.id client_id) && not (text_eq b.id_raw client_id)
      then some client_mismatch
      else if is_empty b.secret
      then check_secret verify_hash c (or_empty body_secret) none now
      else check_secret verify_hash c b.secret (some b.secret_raw) now

  -- `verify_client_secret_basic`
  unfoldable pub verify_client_secret_basic :
      OAuth2Client → Text → Option Text → Option Text → ℕ → Option AuthFault
  unfolding check_basic
  verify_client_secret_basic c client_id body_secret header now =
      check_basic c client_id body_secret (basic_of_header base64 percent header) now

  -- The match on the method that the client is registered with.
  unfoldable pub check_method :
      OAuth2Client → Text → Option Text → Option Text → ℕ → Option AuthFault
  unfolding verify_post verify_client_secret_basic
  check_method c client_id secret header now =
      let method = c.token_endpoint_auth_method in
      if text_eq method (chars "client_secret_post")
      then verify_post verify_hash c secret now
      else if text_eq method (chars "client_secret_basic")
      then verify_client_secret_basic c client_id secret header now
      else if text_eq method (chars "none")
      then none
      else some unsupported_method

  -- `authenticate_client` and `authenticate_client_by_id_secret`, which check the same.
  unfoldable pub authenticate_client :
      List OAuth2Client → Text → Option Text → Option Text → ℕ → Authenticated
  unfolding oauth2client_get check_method
  authenticate_client clients client_id secret header now =
      if is_empty client_id
      then unauthenticated missing_client_id
      else (elim (oauth2client_get clients client_id) [
        | none ↦ unauthenticated unknown_client
        | some c ↦ elim (check_method c client_id secret header now) [
          | some fault ↦ unauthenticated fault
          | none ↦ authenticated c
        ]
      ])
