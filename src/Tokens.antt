-- ===== src/Tokens.antt =====
-- src/utils.rs and src/db.rs: validating a session token and rotating it (`validate_token` for the
-- payload JwtData, `Tenant::refresh_jwt`). Decoding and minting tokens is a library's and a
-- parameter, and so are the parsing of user ids and the failures of the revocation table. A call
-- reads the clock once, in nanoseconds; claims are in seconds.
pub mod Checks
pub mod Rotation
use janux.Common.{
  Bool, Option, Text, [], chars, false, if◌then◌else◌, ltb, none, not, opt_text_eq, some, suc,
  text_eq, true, zero, ℕ, ◌%◌, ◌&&◌, ◌*◌, ◌++◌, ◌+◌, ◌/◌, ◌==◌, ◌∷◌,
}
use janux.Policy.{JwtData, Request, CanAccess}
use janux.Engine.{PolicyCache, decide}
use janux.Tenant.{Role, User, Tenant, Result, ok, err, roles_of_user}
use janux.Members.{user_by_id}
use janux.Revocation.{Store, second, invalid_raw, is_valid}

pub record Claim : Type 0 where
  pub iss : Text
  pub sub : Text
  pub exp : ℕ
  pub iat : ℕ
  pub auth_time : Option ℕ
  pub payload : JwtData

pub data TokenReject : Type 0 where
  invalid issuer_mismatch revoked type_mismatch domain_mismatch : TokenReject

pub record ValidateOpts : Type 0 where
  pub policy : Option Request
  pub domain_bound : Bool
  pub reject_typ : Option Text

pub record TokenDecision : Type 0 where
  pub claims : Claim
  pub can_access : Bool
  pub expect_mfa : Bool

pub data Validated : Type 0 where
  accepted : TokenDecision → Validated
  rejected : TokenReject → Validated

-- A `usize` in decimal, which has at most 20 digits.
abbrev pub decimal_within : ℕ → ℕ → Text
decimal_within zero n = []
decimal_within (suc fuel) n =
    let rest = decimal_within fuel (n / 10) in
    if ltb n 10 then (b'0' + n) ∷ [] else rest ++ ((b'0' + n % 10) ∷ [])

abbrev pub decimal : ℕ → Text
decimal n = decimal_within 20 n

abbrev pub has_prefix : Text → Text → Bool
has_prefix [] s = true
has_prefix (c ∷ cs) [] = false
has_prefix (c ∷ cs) (d ∷ ds) = c == d && has_prefix cs ds

unfoldable pub client_machine_marker : Text → Text
client_machine_marker client_uuid = chars "machine_client:" ++ client_uuid

unfoldable pub session_family_marker : Text → ℕ → Text
session_family_marker sub auth_time = chars "session_family:" ++ sub ++ (b':' ∷ decimal auth_time)

abbrev pub machine_username : JwtData → Bool
machine_username d = has_prefix (chars "client:") d.username

abbrev pub rejects_typ : Option Text → Option Text → Bool
rejects_typ none typ = false
rejects_typ (some r) typ = opt_text_eq typ (some r)

abbrev pub api_key_typ : Text
api_key_typ = chars "api_key+jwt"

abbrev pub session_family_poison_ttl_sec : ℕ
session_family_poison_ttl_sec = 24 * 3600

abbrev pub internal_session_max_age_sec : ℕ
internal_session_max_age_sec = 30 * 24 * 3600

module _ (digest : Text → Text) (latest : ℕ) (to_lowercase : Text → Text)
    (decode : Text → Option Claim) where
  abbrev pub decision : PolicyCache → Text → ValidateOpts → Claim → TokenDecision
  decision policies domain opts c = elim opts.policy [
    | none ↦ record { claims = c; can_access = true; expect_mfa = false }
    | some ctx ↦
        let access = decide to_lowercase policies domain c.payload ctx in
        record { claims = c; can_access = access.can_access; expect_mfa = access.expect_mfa }
  ]

  -- The checks on the claims after the marker of the client.
  abbrev pub check_claims : PolicyCache → Text → ValidateOpts → Claim → Validated
  check_claims policies domain opts c =
      if rejects_typ opts.reject_typ c.payload.typ
      then rejected type_mismatch
      else if opts.domain_bound && not (text_eq c.payload.domain domain)
      then rejected domain_mismatch
      else accepted (decision policies domain opts c)

  abbrev pub check_client :
      Store → PolicyCache → Text → ℕ → ValidateOpts → Claim → Store × Validated
  check_client store policies domain now opts c =
      if machine_username c.payload
      then (let (store', poisoned) =
            is_valid digest latest store (client_machine_marker c.sub) now in
          if poisoned
          then (store', rejected revoked)
          else (store', check_claims policies domain opts c))
      else (store, check_claims policies domain opts c)

  unfoldable pub validate_token :
      Store → PolicyCache → Text → Text → Text → ℕ → ValidateOpts → Store × Validated
  validate_token store policies issuer domain jwt now opts =
      let (store', gone) = is_valid digest latest store jwt now in
      if gone then (store', rejected revoked) else (elim (decode jwt) [
        | none ↦ (store', rejected invalid)
        | some c ↦
            if not (text_eq c.iss issuer)
            then (store', rejected issuer_mismatch)
            else check_client store' policies domain now opts c
      ])
