-- ===== src/Oidc/Codes/Issued.antt =====
-- What an authorization code of src/oidc.rs stands for when it is issued.
use janux.Common.{
  Bool, Bool-cases, List, Option, Option-cases, Text, ap, inl, inr, lookup, ltb, none, refl, some,
  sym, text_eq_refl, ℕ, ◌*◌, ◌+◌, ◌∙◌, ◌≡◌,
}
use janux.Revocation.{second}
use janux.Oidc.Consents.{auth_grant_create}
use janux.Oidc.Codes.{
  Services, Flow, CodeRequest, issue_authorization_code, park_code, code_key, park_challenge,
  pkce_key, code_entry, code_lifetime_sec, unused_code,
}
use janux.Ephem.{put, lookup-put, insert}

module _ (s : Services) (create_fails : Bool) (r : CodeRequest) (jti : Text) (now : ℕ) where
  park_challenge-some :
      (f f' : Flow) (code code' : Text) (pkce : Option (Text × Text))
      → park_challenge f code pkce ≡ (f', some code')
      → (code ≡ code') × (f'.auth_codes ≡ f.auth_codes) × (f'.grants ≡ f.grants)
  unfolding insert
  park_challenge-some f f' code code' none e =
      let k = ap (λ x. x.1) e in
      (cc, ap (λ x. x.0.auth_codes) (sym e), ap (λ x. x.0.grants) (sym e))
  park_challenge-some f f' code code' (some (method, challenge)) e =
      elim (Option-cases (lookup (pkce_key code) f.pkce)) [
        | inr (old, taken) ↦ let k = ap (λ x. x.1) (rw (taken, insert) at e) in cc
        | inl free ↦
            let e' = rw (free, insert) at e in
            let k = ap (λ x. x.1) e' in
            (cc, ap (λ x. x.0.auth_codes) (sym e'), ap (λ x. x.0.grants) (sym e'))
      ]

  park_code-some :
      (f f' : Flow) (code code' : Text)
      → park_code s create_fails f r jti code now ≡ (f', some code')
      → (code ≡ code')
        × (f'.auth_codes ≡ put (code_key code) (code_entry r jti now) f.auth_codes)
        × (auth_grant_create f.grants jti r.client_id r.user_id r.scope
              (s.code_hash code)
              (now + code_lifetime_sec)
            ≡ some f'.grants)
  unfolding park_code
  park_code-some f f' code code' e =
      let entries = put (code_key code) (code_entry r jti now) f.auth_codes in
      elim (Bool-cases (ltb s.latest ((now + code_lifetime_sec) * second))) [
        | inl late ↦ let k = ap (λ x. x.1) (rw (late, park_code) at e) in cc
        | inr early ↦ elim (Bool-cases create_fails) [
          | inl fails ↦ let k = ap (λ x. x.1) (rw (early, fails, park_code) at e) in cc
          | inr works ↦
              elim (Option-cases (
                auth_grant_create f.grants jti r.client_id r.user_id r.scope (s.code_hash code)
                  (now + code_lifetime_sec))) [
                    | inl duplicate ↦
                        let k = ap (λ x. x.1) (rw (early, works, duplicate, park_code) at e) in cc
                    | inr (grants, recorded) ↦
                        let (same, codes, kept) =
                          park_challenge-some (record f { auth_codes = entries; grants = grants })
                            f' code code' r.pkce (rw (early, works, recorded, park_code) at e) in
                        (same, codes, recorded ∙ ap some (sym kept))
                  ]
        ]
      ]

  -- When a code is issued, the cache holds the entry of the request under it, and the grant of the
  -- request is recorded with the hash of the code.
  pub issue_authorization_code-parked :
      (f f' : Flow) (candidates : List Text) (code : Text)
      → issue_authorization_code s create_fails f r jti candidates now ≡ (f', some code)
      → (lookup (code_key code) f'.auth_codes ≡ some (code_entry r jti now))
        × (auth_grant_create f.grants jti r.client_id r.user_id r.scope
              (s.code_hash code)
              (now + code_lifetime_sec)
            ≡ some f'.grants)
  unfolding issue_authorization_code
  issue_authorization_code-parked f f' candidates code e =
      elim (Option-cases (unused_code candidates f.auth_codes)) [
        | inl out ↦ let k = ap (λ x. x.1) (rw (out, issue_authorization_code) at e) in cc
        | inr (drawn, fresh) ↦
            let (same, codes, grants) =
              park_code-some f f' drawn code (rw (fresh, issue_authorization_code) at e) in
            (
              ap (λ m. lookup (code_key code) m) codes
                  ∙ lookup-put (code_key drawn) (code_key code) (code_entry r jti now) f.auth_codes
                  ∙ rw (same, text_eq_refl code) refl,
              rw (← same) grants,
            )
      ]
