-- ===== src/Oidc/Machine/Confined.antt =====
-- The tokens for machines of src/oidc.rs and what they confer.
use janux.Common.{
  Bool-cases, In, In-all, In-append, In-contains, In-retain, List, Option, Option-cases, Text, [],
  all, ap, arith, chars, contains, contains-In, false, inl, inr, is_empty, none, refl, some, subst,
  sym, text_eq, trim, true, ℕ, ℤ, ◌&&◌, ◌++◌, ◌∙◌, ◌∷◌, ◌≡◌, ◌≤◌,
}
use janux.Oidc.Lifetimes.{clamped_token_lifetime_minutes-bounds}
use janux.Oidc.Clients.{get_scope}
use janux.Oidc.Scopes.{split_whitespace}
use janux.Oidc.Machine.{
  effective_scopes, mint_machine, default_scopes, take_scopes, handle_client_credentials,
  machine_signing, machine_scopes, roles_for_machine_scopes,
  client_credentials_token_lifetime_minutes,
}
use janux.Oidc.{
  OAuth2Client, TokenReply, issued, refused, TokenResponse, clamped_token_lifetime_minutes,
}
use janux.Oidc.Codes.{Services, Call}

module _ (registered : List Text) where
  take_scopes-registered :
      (requested taken effective : List Text)
      → ((s : Text) → In s taken → In s registered × In s machine_scopes)
      → take_scopes requested registered taken ≡ some effective
      → (s : Text) → In s effective
      → In s registered × In s machine_scopes
  unfolding take_scopes
  take_scopes-registered [] taken effective h e s i =
      let k : effective ≡ taken = cc in h s (subst (λ xs. In s xs) k i)
  take_scopes-registered (r ∷ requested) taken effective h e s i =
      elim (Bool-cases (contains r machine_scopes)) [
        | inr other ↦ absurd (ground (arith, rw (other, take_scopes) at e))
        | inl machine ↦ elim (Bool-cases (contains r registered)) [
          | inr foreign ↦ absurd (ground (arith, rw (machine, foreign, take_scopes) at e))
          | inl own ↦ elim (Bool-cases (contains r taken)) [
            | inl again ↦
                take_scopes-registered requested taken effective h
                  (rw (machine, own, again, take_scopes) at e) s i
            | inr fresh ↦
                take_scopes-registered requested (taken ++ (r ∷ [])) effective
                  (λ x j. elim (In-append x taken (r ∷ []) j) [
                    | inl old ↦ h x old
                    | inr (inl same) ↦
                        subst (λ y. In y registered × In y machine_scopes) (sym same)
                          (contains-In r registered own, contains-In r machine_scopes machine)
                    | inr (inr never) ↦ absurd never
                  ])
                  (rw (machine, own, fresh, take_scopes) at e) s i
          ]
        ]
      ]

abbrev token_of_reply : TokenReply → Text
token_of_reply (issued reply) = reply.access_token
token_of_reply (refused fault) = []

default-registered :
    (registered effective : List Text) (role : Text)
    → effective ≡ default_scopes registered
    → In role effective
    → In role registered × In role machine_scopes
default-registered registered effective role e i =
    let (j, machine) =
      In-retain (λ x. contains x machine_scopes) role registered (subst (λ xs. In role xs) e i) in
    (j, contains-In role machine_scopes machine)

mint_machine-signed :
    (s : Services) (q : Call) (client : OAuth2Client) (effective : List Text) (lifetime : Option ℤ)
    (reply : TokenResponse)
    → mint_machine s q client effective lifetime ≡ issued reply
    → (minutes : ℕ) × (s.sign
          (machine_signing q client (roles_for_machine_scopes effective) minutes)
        ≡ some reply.access_token)
      × (minutes ≤ client_credentials_token_lifetime_minutes)
unfolding mint_machine
mint_machine-signed s q client effective lifetime reply e =
    let ceiling = client_credentials_token_lifetime_minutes in
    let minutes = clamped_token_lifetime_minutes lifetime ceiling in
    let bound = clamped_token_lifetime_minutes-bounds ceiling lifetime (omega arith) in
    elim (Option-cases
      (s.sign (machine_signing q client (roles_for_machine_scopes effective) minutes))) [
        | inl failing ↦ let k = rw (failing, mint_machine) at e in cc
        | inr (token, signed_token) ↦
            let k : token ≡ reply.access_token =
              let j = rw (signed_token, mint_machine) at e in ap token_of_reply j in
            (minutes, signed_token ∙ ap some k, bound.1)
      ]

effective_scopes-registered :
    (registered effective : List Text) (requested : Option Text) (role : Text)
    → effective_scopes registered requested ≡ some effective
    → In role effective
    → In role registered × In role machine_scopes
unfolding effective_scopes
effective_scopes-registered registered effective none role e i =
    let k : effective ≡ default_scopes registered = cc in
    default-registered registered effective role k i
effective_scopes-registered registered effective (some requested) role e i =
    elim (Bool-cases (is_empty (trim requested))) [
      | inl blank ↦
          default-registered registered effective role
            (let k = rw (blank, effective_scopes) at e in cc) i
      | inr full ↦
          take_scopes-registered registered (split_whitespace (trim requested)) [] effective
            (λ s j. absurd j) (rw (full, effective_scopes) at e) role i
    ]

-- A machine token is for a client that authenticates, it lives at most 90 days, and it confers at
-- least one role; each of its roles is a scope of the grant that is registered for the client.
pub machine-confined :
    (s : Services) (q : Call) (client : OAuth2Client) (requested : Option Text)
    (lifetime : Option ℤ) (reply : TokenResponse)
    → handle_client_credentials s q client requested lifetime ≡ issued reply
    → (roles : List Text) × (minutes : ℕ) × (s.sign (machine_signing q client roles minutes)
        ≡ some reply.access_token)
      × (text_eq client.token_endpoint_auth_method (chars "none") ≡ false)
      × (minutes ≤ client_credentials_token_lifetime_minutes)
      × (is_empty roles ≡ false)
      × (all (λ role. contains role (get_scope client) && contains role machine_scopes) roles
          ≡ true)
unfolding handle_client_credentials roles_for_machine_scopes mint_machine
machine-confined s q client requested lifetime reply e =
    elim (Bool-cases (text_eq client.token_endpoint_auth_method (chars "none"))) [
      | inl anonymous ↦ let k = rw (anonymous, handle_client_credentials) at e in cc
      | inr confidential ↦ elim (Option-cases (effective_scopes (get_scope client) requested)) [
        | inl beyond ↦ let k = rw (confidential, beyond, handle_client_credentials) at e in cc
        | inr (effective, within) ↦
            elim (Bool-cases (is_empty (roles_for_machine_scopes effective))) [
              | inl inert ↦
                  let k = rw (confidential, within, inert, handle_client_credentials) at e in cc
              | inr some_role ↦ elim (Bool-cases q.has_key) [
                | inr keyless ↦
                    let k =
                      rw (confidential, within, some_role, keyless, handle_client_credentials) at
                        e in
                    cc
                | inl keyed ↦
                    let (minutes, signed_token, short) =
                      mint_machine-signed s q client effective lifetime reply (
                        rw (confidential, within, some_role, keyed, handle_client_credentials) at
                          e) in
                    (
                      roles_for_machine_scopes effective,
                      minutes,
                      signed_token,
                      confidential,
                      short,
                      some_role,
                      In-all (λ x. contains x (get_scope client) && contains x machine_scopes)
                          (roles_for_machine_scopes effective)
                          (λ role i.
                            let (j, machine) =
                              In-retain (λ x. contains x machine_scopes) role effective i in
                            let (own, known) =
                              effective_scopes-registered (get_scope client) effective requested
                                role within j in
                            rw
                              (
                                In-contains role (get_scope client) own,
                                In-contains role machine_scopes known,
                              )
                              refl),
                    )
              ]
            ]
      ]
    ]
