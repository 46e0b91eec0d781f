-- ===== src/Oidc/Consent/Admitted.antt =====
-- The checks on an authorization request in src/oidc.rs.
use janux.Common.{
  Bool-cases, List, Option, Option-cases, Text, arith, chars, contains, false, inl, inr, is_empty,
  none, refl, some, subst, text_eq, true, ◌∙◌, ◌≡◌, ◌≢◌, ◌⊎◌,
}
use janux.Oidc.Clients.{oauth2client_get, oauth2client_redirect_uris, get_response_types, get_scope}
use janux.Oidc.Scopes.{validate_requested_scope}
use janux.Oidc.{OAuth2Client}
use janux.Oidc.Authorize.{pkce_fault, s256_pkce}
use janux.Oidc.Authorize.{
  AuthorizeRequest, Checked, checked, choose_pkce, check_request, PkceChoice, check_uri, no_pkce,
  check_scope, challenge_of, wanted_scope, check_challenge, s256_pkce,
}

module _ (to_lowercase : Text → Text) (clients : List OAuth2Client) (uris : List (Text × Text))
    (domain : Text) where
  -- What a request that passed the checks is: it is for a client of this domain, its callback is
  -- registered, its scope is of the server's vocabulary and registered for the client, and a public
  -- client has a challenge.
  pub record Admitted (r : AuthorizeRequest) (k : Checked) : Type 0 where
    pub client : OAuth2Client
    pub known : oauth2client_get clients r.client_id ≡ some client
    pub named : k.client_id ≡ client.id
    pub at_home : text_eq client.domain_id domain ≡ true
    pub registered : contains k.callback_uri (oauth2client_redirect_uris uris r.client_id) ≡ true
    pub in_scope : validate_requested_scope k.scope (get_scope client) ≡ none
    pub protected :
        (text_eq client.token_endpoint_auth_method (chars "none") ≡ false)
        ⊎ ((c : Text) × (k.challenge ≡ some c))

  choose_pkce-public :
      (client : OAuth2Client) (challenge method : Option Text)
      → text_eq client.token_endpoint_auth_method (chars "none") ≡ true
      → choose_pkce to_lowercase client challenge method ≢ no_pkce
  unfolding choose_pkce
  choose_pkce-public client none method anonymous e = let k = rw (anonymous, choose_pkce) at e in cc
  choose_pkce-public client (some challenge) none anonymous e = cc
  choose_pkce-public client (some challenge) (some method) anonymous e = absurd (ground (arith, e))

  check_scope-checked :
      (r : AuthorizeRequest) (k : Checked) (client : OAuth2Client) (callback_uri : Text)
      (choice : PkceChoice)
      → check_scope to_lowercase clients uris domain r client callback_uri choice ≡ checked k
      → (k.client_id ≡ client.id)
        × (text_eq client.domain_id domain ≡ true)
        × (k.callback_uri ≡ callback_uri)
        × (validate_requested_scope k.scope (get_scope client) ≡ none)
        × (k.challenge ≡ challenge_of choice)
  check_scope-checked r k client callback_uri choice e =
      elim (Bool-cases (text_eq client.domain_id domain)) [
        | inr away ↦ absurd (ground (arith, rw away at e))
        | inl home ↦
            let scope = wanted_scope client r.scope in
            elim (Option-cases (validate_requested_scope scope (get_scope client))) [
              | inr (fault, beyond) ↦ absurd (ground (arith, rw (home, beyond) at e))
              | inl within ↦
                  let k' : Checked = record {
                    client_id = client.id;
                    callback_uri = callback_uri;
                    scope = scope;
                    challenge = challenge_of choice;
                  } in
                  let same : k' ≡ k = let j = rw (home, within) at e in cc in
                  subst
                    (λ (x : Checked).
                      (x.client_id ≡ client.id)
                      × (text_eq client.domain_id domain ≡ true)
                      × (x.callback_uri ≡ callback_uri)
                      × (validate_requested_scope x.scope (get_scope client) ≡ none)
                      × (x.challenge ≡ challenge_of choice))
                    same (refl, home, refl, within, refl)
            ]
      ]

  admit :
      (r : AuthorizeRequest) (k : Checked) (client : OAuth2Client) (callback_uri : Text)
      (choice : PkceChoice)
      → oauth2client_get clients r.client_id ≡ some client
      → contains callback_uri (oauth2client_redirect_uris uris r.client_id) ≡ true
      → (text_eq client.token_endpoint_auth_method (chars "none") ≡ false)
        ⊎ ((c : Text) × (challenge_of choice ≡ some c))
      → check_scope to_lowercase clients uris domain r client callback_uri choice ≡ checked k
      → Admitted r k
  admit r k client callback_uri choice known registered protected e =
      let (named, home, same, within, challenge) =
        check_scope-checked r k client callback_uri choice e in
      record {
        client = client;
        known = known;
        named = named;
        at_home = home;
        registered = rw (same) registered;
        in_scope = within;
        protected = elim protected [
          | inl confidential ↦ inl confidential
          | inr (c, given) ↦ inr (c, challenge ∙ given)
        ];
      }

  check_challenge-checked :
      (r : AuthorizeRequest) (k : Checked) (client : OAuth2Client) (callback_uri : Text)
      (choice : PkceChoice)
      → choose_pkce to_lowercase client r.code_challenge r.code_challenge_method ≡ choice
      → oauth2client_get clients r.client_id ≡ some client
      → contains callback_uri (oauth2client_redirect_uris uris r.client_id) ≡ true
      → check_challenge to_lowercase clients uris domain r client callback_uri choice ≡ checked k
      → Admitted r k
  check_challenge-checked r k client callback_uri pkce_fault chosen known registered e = cc
  check_challenge-checked r k client callback_uri no_pkce chosen known registered e =
      admit r k client callback_uri no_pkce known registered
        (elim (Bool-cases (text_eq client.token_endpoint_auth_method (chars "none"))) [
          | inl anonymous ↦
              absurd (
                choose_pkce-public client r.code_challenge r.code_challenge_method anonymous chosen)
          | inr confidential ↦ inl confidential
        ])
        e
  check_challenge-checked r k client callback_uri (s256_pkce c) chosen known registered e =
      admit r k client callback_uri (s256_pkce c) known registered (inr (c, refl)) e

  check_uri-checked :
      (r : AuthorizeRequest) (k : Checked) (client : OAuth2Client) (uri : Option Text)
      → oauth2client_get clients r.client_id ≡ some client
      → check_uri to_lowercase clients uris domain r client uri ≡ checked k
      → Admitted r k
  check_uri-checked r k client none known e = cc
  check_uri-checked r k client (some callback_uri) known e =
      elim (Bool-cases (contains callback_uri (oauth2client_redirect_uris uris r.client_id))) [
        | inr stray ↦ absurd (ground (arith, rw stray at e))
        | inl registered ↦
            check_challenge-checked r k client callback_uri
              (choose_pkce to_lowercase client r.code_challenge r.code_challenge_method) refl known
              registered (rw registered at e)
      ]

  pub check_request-Admitted :
      (r : AuthorizeRequest) (k : Checked)
      → check_request to_lowercase clients uris domain r ≡ checked k
      → Admitted r k
  unfolding check_request
  check_request-Admitted r k e = elim (Bool-cases (text_eq r.response_type (chars "code"))) [
    | inr other ↦ absurd (ground (arith, rw (other, check_request) at e))
    | inl is_code ↦ elim (Bool-cases (is_empty r.client_id)) [
      | inl empty ↦ absurd (ground (arith, rw (is_code, empty, check_request) at e))
      | inr full ↦ elim (Option-cases (oauth2client_get clients r.client_id)) [
        | inl unknown ↦ absurd (ground (arith, rw (is_code, full, unknown, check_request) at e))
        | inr (client, known) ↦
            elim (Bool-cases (contains r.response_type (get_response_types client))) [
              | inr barred ↦
                  absurd (ground (arith, rw (is_code, full, known, barred, check_request) at e))
              | inl allowed ↦
                  check_uri-checked r k client r.redirect_uri known
                    (rw (is_code, full, known, allowed, check_request) at e)
            ]
      ]
    ]
  ]
