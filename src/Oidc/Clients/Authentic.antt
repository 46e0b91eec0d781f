-- ===== src/Oidc/Clients/Authentic.antt =====
-- src/oidc.rs and src/idp.rs: who authenticates as a client.
use janux.Common.{
  Bool, Bool-cases, In, List, Option, Option-cases, Text, [], ap, arith, chars, false, find, inl,
  inr, is_empty, ltb, ltb→lt, none, not, refl, some, subst, text_eq, text_eq_iff, true, ℕ, ◌&&◌,
  ◌<◌, ◌∙◌, ◌∷◌, ◌≡◌, ◌⊎◌,
}
use janux.Oidc.Clients.{
  previous_hash, verify_secret_with_grace, verify_client_secret, verify_post,
  verify_client_secret_basic, or_empty, Basic, basic_of_header, secret_verdict, authenticate_client,
  check_secret, check_method, authenticated, oauth2client_get,
}
use janux.Oidc.{OAuth2Client}

find-found :
    {A : Type 0} (p : A → Bool) (xs : List A) (x : A) → find p xs ≡ some x → In x xs × (p x ≡ true)
find-found p [] x e = cc
find-found p (y ∷ ys) x e = elim (Bool-cases (p y)) [
  | inl h ↦ let same : x ≡ y = let k = rw h at e in cc in (inl same, ap p same ∙ h)
  | inr h ↦ let (i, q) = find-found p ys x (rw h at e) in (inr i, q)
]

oauth2client_get-found :
    (clients : List OAuth2Client) (id : Text) (c : OAuth2Client)
    → oauth2client_get clients id ≡ some c
    → In c clients × (c.id ≡ id) × (c.active ≡ true)
unfolding oauth2client_get
oauth2client_get-found clients id c e = elim (Option-cases (find (λ x. text_eq x.id id) clients)) [
  | inl h ↦ absurd (ground (arith, rw (h, oauth2client_get) at e))
  | inr (d, h) ↦ elim (Bool-cases d.active) [
    | inr dead ↦ absurd (ground (arith, rw (h, dead, oauth2client_get) at e))
    | inl live ↦
        let same : d ≡ c = let k = rw (h, live, oauth2client_get) at e in cc in
        let (i, q) = find-found (λ x. text_eq x.id id) clients d h in
        subst (λ (x : OAuth2Client). In x clients × (x.id ≡ id) × (x.active ≡ true)) same
          (i, (text_eq_iff d.id id).0 q, live)
  ]
]

module _ (verify_hash : Text → Text → Option Bool) where
  -- The secret verifies against the current hash, or against the one before within the grace window.
  abbrev pub Verifies : OAuth2Client → ℕ → Text → Type 0
  Verifies c now s =
      (verify_hash c.client_secret_hash s ≡ some true)
      ⊎ ((prev : Text) × (until : ℕ) × (c.client_prev_secret_hash ≡ some prev)
          × (c.secret_grace_until ≡ some until)
          × (now < until)
          × (verify_hash prev s ≡ some true))

  previous_hash-some :
      (c : OAuth2Client) (now : ℕ) (prev : Text)
      → previous_hash c now ≡ some prev
      → (until : ℕ) × (c.client_prev_secret_hash ≡ some prev)
        × (c.secret_grace_until ≡ some until)
        × (now < until)
  previous_hash-some c now prev e = elim (Option-cases c.secret_grace_until) [
    | inl h ↦ absurd (ground (arith, rw h at e))
    | inr (until, h) ↦ elim (Bool-cases (ltb now until)) [
      | inr late ↦ absurd (ground (arith, rw (h, late) at e))
      | inl early ↦ elim (Option-cases c.client_prev_secret_hash) [
        | inl none_before ↦ absurd (ground (arith, rw (h, early, none_before) at e))
        | inr (p, before) ↦ elim (Bool-cases (is_empty p)) [
          | inl empty ↦ absurd (ground (arith, rw (h, early, before, empty) at e))
          | inr full ↦
              let k : p ≡ prev = let j = rw (h, early, before, full) at e in cc in
              (until, before ∙ ap some k, h, ltb→lt now until early)
        ]
      ]
    ]
  ]

  verify_secret_with_grace-Verifies :
      (c : OAuth2Client) (s : Text) (now : ℕ)
      → verify_secret_with_grace verify_hash c s now ≡ some true
      → Verifies c now s
  unfolding verify_secret_with_grace
  verify_secret_with_grace-Verifies c s now e =
      elim (Option-cases (verify_hash c.client_secret_hash s)) [
        | inl h ↦ absurd (ground (arith, rw (h, verify_secret_with_grace) at e))
        | inr (true, h) ↦ inl h
        | inr (false, h) ↦ elim (Option-cases (previous_hash c now)) [
          | inl before ↦ absurd (ground (arith, rw (h, before, verify_secret_with_grace) at e))
          | inr (prev, before) ↦
              let (until, hash, grace, early) = previous_hash-some c now prev before in
              inr (prev, until, hash, grace, early, rw (h, before, verify_secret_with_grace) at e)
        ]
      ]

  verify_client_secret-Verifies :
      (c : OAuth2Client) (s : Text) (raw : Option Text) (now : ℕ)
      → verify_client_secret verify_hash c s raw now ≡ some true
      → Verifies c now s ⊎ ((r : Text) × (raw ≡ some r) × Verifies c now r)
  unfolding verify_client_secret
  verify_client_secret-Verifies c s raw now e =
      elim (Option-cases (verify_secret_with_grace verify_hash c s now)) [
        | inl h ↦ absurd (ground (arith, rw (h, verify_client_secret) at e))
        | inr (true, h) ↦ inl (verify_secret_with_grace-Verifies c s now h)
        | inr (false, h) ↦ elim (Option-cases raw) [
          | inl absent ↦ absurd (ground (arith, rw (h, absent, verify_client_secret) at e))
          | inr (r, given) ↦ elim (Bool-cases (text_eq r s)) [
            | inl same ↦ absurd (ground (arith, rw (h, given, same, verify_client_secret) at e))
            | inr other ↦ inr (
              r,
              given,
              verify_secret_with_grace-Verifies c r now
                  (rw (h, given, other, verify_client_secret) at e),
            )
          ]
        ]
      ]

module _ (verify_hash : Text → Text → Option Bool) (base64 percent : Text → Option Text)
    (secret header : Option Text) (now : ℕ) where
  abbrev basic : Basic
  basic = basic_of_header base64 percent header

  -- The request carries the secret: in its body or, decoded or raw, in its header.
  abbrev pub Presented : Text → Type 0
  Presented s =
      (secret ≡ some s)
      ⊎ ((basic_of_header base64 percent header).secret ≡ s)
      ⊎ ((basic_of_header base64 percent header).secret_raw ≡ s)

  abbrev pub Proved : OAuth2Client → Type 0
  Proved c = (s : Text) × Presented s × Verifies verify_hash c now s

  secret_verdict-true : (v : Option Bool) → secret_verdict v ≡ none → v ≡ some true
  secret_verdict-true none e = cc
  secret_verdict-true (some true) e = refl
  secret_verdict-true (some false) e = cc

  verify_post-Proved : (c : OAuth2Client) → verify_post verify_hash c secret now ≡ none → Proved c
  unfolding verify_post
  verify_post-Proved c e = elim (Option-cases secret) [
    | inl h ↦ absurd (ground (arith, rw (h, verify_post) at e))
    | inr (s, h) ↦ (
      s,
      inl h,
      verify_secret_with_grace-Verifies verify_hash c s now
          (secret_verdict-true _ (rw (h, verify_post) at e)),
    )
  ]

  or_empty-some : (o : Option Text) → is_empty (or_empty o) ≡ false → o ≡ some (or_empty o)
  or_empty-some none e = cc
  or_empty-some (some s) e = refl

  check_secret-Verifies :
      (c : OAuth2Client) (s : Text) (raw : Option Text)
      → check_secret verify_hash c s raw now ≡ none
      → (is_empty s ≡ false)
        × (Verifies verify_hash c now s
            ⊎ ((r : Text) × (raw ≡ some r) × Verifies verify_hash c now r))
  unfolding check_secret
  check_secret-Verifies c s raw e = elim (Bool-cases (is_empty s)) [
    | inl h ↦ absurd (ground (arith, rw (h, check_secret) at e))
    | inr h ↦ (
      h,
      verify_client_secret-Verifies verify_hash c s raw now
          (secret_verdict-true _ (rw (h, check_secret) at e)),
    )
  ]

  check_basic-Proved :
      (c : OAuth2Client) (client_id : Text)
      → verify_client_secret_basic verify_hash base64 percent c client_id secret header now ≡ none
      → Proved c
  unfolding verify_client_secret_basic
  check_basic-Proved c client_id e =
      let b = basic in
      elim (Bool-cases
        (not (is_empty b.id) && not (text_eq b.id client_id) && not (text_eq b.id_raw client_id))) [
          | inl h ↦ absurd (ground (arith, rw (h, verify_client_secret_basic) at e))
          | inr h ↦ elim (Bool-cases (is_empty b.secret)) [
            | inl from_body ↦
                let (full, v) =
                  check_secret-Verifies c (or_empty secret) none
                    (rw (h, from_body, verify_client_secret_basic) at e) in
                elim v [
                  | inl yes_body ↦ (or_empty secret, inl (or_empty-some secret full), yes_body)
                  | inr raw_body ↦ let k = raw_body.1 in cc
                ]
            | inr from_header ↦
                let (full, v) = check_secret-Verifies c b.secret (some b.secret_raw) (
                  rw (from_header, check_secret)
                    (rw (h, from_header, verify_client_secret_basic) at e)) in
                elim v [
                  | inl decoded ↦ (b.secret, inr (inl refl), decoded)
                  | inr raw ↦ (raw.0, inr (inr (let k = raw.1 in cc)), raw.2)
                ]
          ]
        ]

  check_method-Proved :
      (c : OAuth2Client) (client_id : Text)
      → check_method verify_hash base64 percent c client_id secret header now ≡ none
      → text_eq c.token_endpoint_auth_method (chars "none") ≡ false
      → Proved c
  unfolding check_method
  check_method-Proved c client_id e confidential =
      let method = c.token_endpoint_auth_method in
      elim (Bool-cases (text_eq method (chars "client_secret_post"))) [
        | inl post ↦ verify_post-Proved c (rw (post, check_method) at e)
        | inr post ↦ elim (Bool-cases (text_eq method (chars "client_secret_basic"))) [
          | inl basic_auth ↦
              check_basic-Proved c client_id (rw (post, basic_auth, check_method) at e)
          | inr basic_auth ↦
              absurd (ground (arith, rw (post, basic_auth, confidential, check_method) at e))
        ]
      ]

  -- Whoever authenticates does so as an active client of the table with the presented id, and for a
  -- client that is not public the request carries, in its body or in its header, a secret that
  -- verifies against the current hash or, before the grace window ends, against the one before.
  pub authenticate_client-authentic :
      (clients : List OAuth2Client) (client_id : Text) (c : OAuth2Client)
      → authenticate_client verify_hash base64 percent clients client_id secret header now
        ≡ authenticated c
      → In c clients
        × (c.id ≡ client_id)
        × (c.active ≡ true)
        × ((text_eq c.token_endpoint_auth_method (chars "none") ≡ true) ⊎ Proved c)
  unfolding authenticate_client
  authenticate_client-authentic clients client_id c e = elim (Bool-cases (is_empty client_id)) [
    | inl h ↦ absurd (ground (arith, rw (h, authenticate_client) at e))
    | inr h ↦ elim (Option-cases (oauth2client_get clients client_id)) [
      | inl gone ↦ absurd (ground (arith, rw (h, gone, authenticate_client) at e))
      | inr (d, found) ↦
          elim (Option-cases
            (check_method verify_hash base64 percent d client_id secret header now)) [
              | inr (fault, bad) ↦
                  absurd (ground (arith, rw (h, found, bad, authenticate_client) at e))
              | inl good ↦
                  let same : d ≡ c = let k = rw (h, found, good, authenticate_client) at e in cc in
                  let (i, id, live) = oauth2client_get-found clients client_id d found in
                  subst
                    (λ (x : OAuth2Client).
                      In x clients
                      × (x.id ≡ client_id)
                      × (x.active ≡ true)
                      × ((text_eq x.token_endpoint_auth_method (chars "none") ≡ true) ⊎ Proved x))
                    same
                    (
                      i,
                      id,
                      live,
                      elim (Bool-cases (text_eq d.token_endpoint_auth_method (chars "none"))) [
                        | inl public_client ↦ inl public_client
                        | inr confidential ↦ inr (check_method-Proved d client_id good confidential)
                      ],
                    )
            ]
    ]
  ]
