-- ===== src/Tokens/Checks.antt =====
-- The checks of `validate_token` in src/utils.rs, for session payloads.
use janux.Common.{
  Bool-cases, Option, Option-cases, Text, arith, false, inl, inr, not, some, sym, text_eq,
  text_eq_iff, true, ℕ, ◌&&◌, ◌≡◌,
}
use janux.Engine.{PolicyCache}
use janux.Revocation.{Store, is_valid}
use janux.Tokens.{
  Claim, TokenReject, invalid, issuer_mismatch, revoked, type_mismatch, domain_mismatch,
  TokenDecision, accepted, rejected, ValidateOpts, validate_token, check_client, check_claims,
  decision, machine_username, client_machine_marker, rejects_typ,
}

accepted-rejected : (d : TokenDecision) (e : TokenReject) → rejected e ≡ accepted d → ⊥
accepted-rejected d e h = cc

accepted-injective : (d d' : TokenDecision) → accepted d ≡ accepted d' → d ≡ d'
accepted-injective d d' h = cc

module _ (digest : Text → Text) (latest : ℕ) (low : Text → Text)
    (decode : Text → Option Claim) where
  check_claims-inv :
      (policies : PolicyCache) (domain : Text) (opts : ValidateOpts) (c : Claim) (d : TokenDecision)
      → check_claims digest latest low decode policies domain opts c ≡ accepted d
      → (rejects_typ opts.reject_typ c.payload.typ ≡ false)
        × (opts.domain_bound ≡ true → c.payload.domain ≡ domain)
        × (d ≡ decision digest latest low decode policies domain opts c)
  check_claims-inv policies domain opts c d e =
      elim (Bool-cases (rejects_typ opts.reject_typ c.payload.typ)) [
        | inl h ↦ absurd (accepted-rejected d type_mismatch (rw h at e))
        | inr h ↦ elim (Bool-cases (opts.domain_bound && not (text_eq c.payload.domain domain))) [
          | inl g ↦ absurd (accepted-rejected d domain_mismatch (rw (h, g) at e))
          | inr g ↦ (
            h,
            λ bound. ground (arith, bound, g, text_eq_iff c.payload.domain domain),
            sym (accepted-injective _ d (rw (h, g) at e)),
          )
        ]
      ]

  check_client-inv :
      (s : Store) (policies : PolicyCache) (domain : Text) (now : ℕ) (opts : ValidateOpts)
      (c : Claim) (d : TokenDecision)
      → (check_client digest latest low decode s policies domain now opts c).1 ≡ accepted d
      → (machine_username c.payload ≡ true
          → (is_valid digest latest s (client_machine_marker c.sub) now).1 ≡ false)
        × (check_claims digest latest low decode policies domain opts c ≡ accepted d)
  check_client-inv s policies domain now opts c d e =
      elim (Bool-cases (machine_username c.payload)) [
        | inr h ↦ (λ m. absurd (ground (arith, h, m)), rw h at e)
        | inl h ↦ elim (Bool-cases (is_valid digest latest s (client_machine_marker c.sub) now).1) [
          | inl g ↦ absurd (accepted-rejected d revoked (rw (h, g) at e))
          | inr g ↦ (λ _. g, rw (h, g) at e)
        ]
      ]

  -- A token that the store knows as revoked is rejected as such, whatever else holds.
  pub validate_token-gone :
      (s : Store) (policies : PolicyCache) (issuer domain jwt : Text) (now : ℕ)
      (opts : ValidateOpts)
      → (is_valid digest latest s jwt now).1 ≡ true
      → (validate_token digest latest low decode s policies issuer domain jwt now opts).1
        ≡ rejected revoked
  unfolding validate_token
  validate_token-gone s policies issuer domain jwt now opts h = rw (h, validate_token)

  -- An accepted token is not revoked, decodes, has the tenant's issuer, is not of a machine whose
  -- client was deleted, has no rejected type, is of the domain where that is asked for, and the
  -- decision on it is the engine's, or access where no policy is asked for.
  pub validate_token-accepts :
      (s : Store) (policies : PolicyCache) (issuer domain jwt : Text) (now : ℕ)
      (opts : ValidateOpts) (d : TokenDecision)
      → (validate_token digest latest low decode s policies issuer domain jwt now opts).1
        ≡ accepted d
      → ((is_valid digest latest s jwt now).1 ≡ false)
        × ((c : Claim) × (decode jwt ≡ some c)
            × (c.iss ≡ issuer)
            × (machine_username c.payload ≡ true
                → (is_valid digest latest
                    (is_valid digest latest s jwt now).0
                    (client_machine_marker c.sub)
                    now).1
                  ≡ false)
            × (rejects_typ opts.reject_typ c.payload.typ ≡ false)
            × (opts.domain_bound ≡ true → c.payload.domain ≡ domain)
            × (d ≡ decision digest latest low decode policies domain opts c))
  unfolding validate_token
  validate_token-accepts s policies issuer domain jwt now opts d e =
      elim (Bool-cases (is_valid digest latest s jwt now).1) [
        | inl gone ↦ absurd (accepted-rejected d revoked (rw (gone, validate_token) at e))
        | inr live ↦ (
          live,
          (elim (Option-cases (decode jwt)) [
            | inl h ↦ absurd (accepted-rejected d invalid (rw (live, h, validate_token) at e))
            | inr (c, h) ↦ elim (Bool-cases (text_eq c.iss issuer)) [
              | inr ne ↦
                  absurd
                    (accepted-rejected d issuer_mismatch (rw (live, h, ne, validate_token) at e))
              | inl same ↦
                  let (machine, rest) =
                    check_client-inv (is_valid digest latest s jwt now).0 policies domain now opts c
                      d (rw (live, h, same, validate_token) at e) in
                  let (typ, bound, outcome) = check_claims-inv policies domain opts c d rest in
                  (c, h, (text_eq_iff c.iss issuer).0 same, machine, typ, bound, outcome)
            ]
          ]),
        )
      ]
