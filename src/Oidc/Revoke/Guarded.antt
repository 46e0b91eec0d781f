-- ===== src/Oidc/Revoke/Guarded.antt =====
-- Who can revoke and inspect tokens through src/oidc.rs.
use janux.Common.{
  Bool-cases, Option, Option-cases, Text, ap, chars, false, inl, inr, is_empty, leb, lookup, none,
  not, refl, some, text_eq, true, ℕ, ◌*◌, ◌||◌, ◌≡◌,
}
use janux.Oidc.Issue.{access_key}
use janux.Revocation.{is_valid, second, Store}
use janux.Oidc.Clients.{authenticated}
use janux.Oidc.{OAuth2Client, AccessEntry}
use janux.Oidc.Codes.{Services, Flow, Call}
use janux.Oidc.Revoke.{
  AnyClaim, revoke_ok, answered, Introspected, introspect, revoke, introspect_for, revoke_for,
  introspect_token, revoke_claim, introspect_cached, belongs_to, validate_any, introspect_validated,
}
use janux.Tenant.{Tenant}

module _ (s : Services) (t : Tenant) (q : Call) (decode_any : Text → ℕ → Option AnyClaim) (f : Flow)
    (client : OAuth2Client) (token : Text) where
  -- A client can revoke its own tokens only: a token that does not decode, or that another issuer or
  -- another client's, leaves everything as it was, with the answer that every token gets.
  pub revoke-foreign :
      is_empty token ≡ false
      → text_eq client.token_endpoint_auth_method (chars "none") ≡ false
      → ((c : AnyClaim)
          → decode_any token q.now ≡ some c
          → (not (text_eq c.iss q.issuer) || not (belongs_to c client q.domain)) ≡ true)
      → revoke s t q decode_any f (authenticated client) token ≡ (f, revoke_ok)
  unfolding revoke revoke_for revoke_claim
  revoke-foreign full confidential foreign = elim (Option-cases (decode_any token q.now)) [
    | inl unknown ↦ rw (full, confidential, unknown, revoke, revoke_for) refl
    | inr (c, decoded) ↦
        rw (full, confidential, decoded, revoke, revoke_for)
          (rw (foreign c decoded, revoke_claim) refl)
  ]

  validate_any-valid :
      (reject_typ : Option Text) (store' : Store) (c : AnyClaim)
      → validate_any s t q decode_any f.store token reject_typ ≡ (store', some c)
      → (is_valid s.digest s.latest f.store token (q.now * second)).1 ≡ false
  unfolding validate_any
  validate_any-valid reject_typ store' c e =
      elim (Bool-cases (is_valid s.digest s.latest f.store token (q.now * second)).1) [
        | inr h ↦ h
        | inl gone ↦ let k = ap (λ x. x.1) (rw (gone, validate_any) at e) in cc
      ]

  introspect_cached-valid :
      (e : AccessEntry) (answer : Introspected) (f' : Flow)
      → introspect_cached s t q decode_any f client token e ≡ (f', answered (some answer))
      → (is_valid s.digest s.latest f.store token (q.now * second)).1 ≡ false
  unfolding introspect_cached
  introspect_cached-valid e answer f' h =
      elim (Bool-cases
        (leb e.exp q.now || not (text_eq e.iss q.issuer) || not (text_eq e.client_id client.id))) [
          | inl fault ↦ let k = ap (λ x. x.1) (rw (fault, introspect_cached) at h) in cc
          | inr good ↦
              elim (Bool-cases (is_valid s.digest s.latest f.store token (q.now * second)).1) [
                | inr valid ↦ valid
                | inl gone ↦ let k = ap (λ x. x.1) (rw (good, gone, introspect_cached) at h) in cc
              ]
        ]

  introspect_validated-some :
      (r : Store × Option AnyClaim) (answer : Introspected) (f' : Flow)
      → introspect_validated s t q decode_any f client r ≡ (f', answered (some answer))
      → (c : AnyClaim) × (r.1 ≡ some c)
  introspect_validated-some (store, none) answer f' h = let k = ap (λ x. x.1) h in cc
  introspect_validated-some (store, some c) answer f' h = (c, refl)

  -- A token that introspection reports as active is not revoked in the store at the time of the call,
  -- and the client that asks has authenticated with a secret.
  pub introspect-active :
      (answer : Introspected) (f' : Flow)
      → introspect s t q decode_any f (authenticated client) token ≡ (f', answered (some answer))
      → ((is_valid s.digest s.latest f.store token (q.now * second)).1 ≡ false)
        × (text_eq client.token_endpoint_auth_method (chars "none") ≡ false)
  unfolding introspect introspect_for introspect_token
  introspect-active answer f' e = elim (Bool-cases (is_empty token)) [
    | inl empty ↦ let k = ap (λ x. x.1) (rw (empty, introspect) at e) in cc
    | inr full ↦ elim (Bool-cases (text_eq client.token_endpoint_auth_method (chars "none"))) [
      | inl anonymous ↦
          let k = ap (λ x. x.1) (rw (full, anonymous, introspect, introspect_for) at e) in cc
      | inr confidential ↦ elim (Option-cases (lookup (access_key token) f.tokens)) [
        | inr (entry, cached) ↦ (
          introspect_cached-valid entry answer f'
              (rw (full, confidential, cached, introspect, introspect_for, introspect_token) at e),
          confidential,
        )
        | inl uncached ↦
            let (c, valid) =
              introspect_validated-some (validate_any s t q decode_any f.store token none) answer f'
                (rw (full, confidential, uncached, introspect, introspect_for, introspect_token) at
                  e) in
            let store' = (validate_any s t q decode_any f.store token none).0 in
            (validate_any-valid none store' c (ap (λ o. (store', o)) valid), confidential)
      ]
    ]
  ]
