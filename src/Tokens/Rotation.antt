-- ===== src/Tokens/Rotation.antt =====
-- `Tenant::refresh_jwt` of src/db.rs.
pub mod Once
use janux.Common.{
  Bool, List, Option, Text, false, if◌then◌else◌, leb, ltb, map, max, none, not, some, true, ℕ, ◌*◌,
  ◌+◌, ◌-◌, ◌/◌,
}
use janux.Policy.{JwtData}
use janux.Tenant.{Role, User, Tenant, Result, ok, err, roles_of_user}
use janux.Members.{user_by_id}
use janux.Revocation.{Store, second, invalid_raw, is_valid}
use janux.Tokens.{
  Claim, TokenReject, revoked, TokenDecision, Validated, accepted, rejected, ValidateOpts,
  validate_token, session_family_marker, api_key_typ, session_family_poison_ttl_sec,
  internal_session_max_age_sec,
}

-- What a new token is minted from.
pub record Minting : Type 0 where
  pub payload : JwtData
  pub minutes : ℕ
  pub auth_time : Option ℕ

pub data RefreshError : Type 0 where
  token_rejected : TokenReject → RefreshError
  reuse_detected chain_revoked session_expired invalid_subject user_deactivated user_gone no_key
        expiry_out_of_range store_failed :
      RefreshError

pub data Refreshed : Type 0 where
  token : Text → Refreshed
  failed : RefreshError → Refreshed

abbrev pub clamp_minutes : ℕ → ℕ → ℕ
clamp_minutes presented minutes =
    let top = max minutes 1 in
    if ltb presented 1 then 1 else if ltb top presented then top else presented

-- The lifetime that the presented token carried, within the cap.
abbrev pub presented_minutes : Claim → ℕ → ℕ
presented_minutes c minutes = clamp_minutes ((c.exp - c.iat) / 60) minutes

abbrev pub role_ids : List Role → List Text
role_ids rs = map (λ r. r.id) rs

abbrev pub reminted : Tenant → Claim → User → ℕ → Minting
reminted t c u minutes = record {
  payload = record c.payload {
    username = u.name;
    roles = role_ids (roles_of_user t.user_roles t.roles u.id);
  };
  minutes = presented_minutes c minutes;
  auth_time = c.auth_time;
}

abbrev pub young : Option ℕ → ℕ → Bool
young none now = false
young (some auth_time) now = leb (now / second - auth_time) internal_session_max_age_sec

module _ (digest : Text → Text) (latest : ℕ) (to_lowercase : Text → Text)
    (decode : Text → Option Claim) (parse_uuid : Text → Option Text) (mint : Minting → Option Text)
    (revoke_fails poison_fails : Bool) where
  abbrev pub poison_session_family : Store → Text → Option ℕ → ℕ → Store
  poison_session_family store sub none now = store
  poison_session_family store sub (some auth_time) now =
      (invalid_raw digest latest store (session_family_marker sub auth_time)
        ((now / second + session_family_poison_ttl_sec) * second) poison_fails).0

  -- A token that was rotated or revoked before: its family goes, where it still decodes.
  abbrev pub replayed : Store → Option Claim → ℕ → Store × Refreshed
  replayed store none now = (store, failed reuse_detected)
  replayed store (some c) now =
      (poison_session_family store c.sub c.auth_time now, failed reuse_detected)

  abbrev pub family_poisoned : Store → Claim → ℕ → Store × Bool
  family_poisoned store c now = elim c.auth_time [
    | none ↦ (store, false)
    | some auth_time ↦ is_valid digest latest store (session_family_marker c.sub auth_time) now
  ]

  -- The revocation of the presented token is the commit.
  abbrev pub commit : Store × Option Bool → Claim → ℕ → Text → Store × Refreshed
  commit (store, none) c now new_jwt = (store, failed store_failed)
  commit (store, some true) c now new_jwt = (store, token new_jwt)
  commit (store, some false) c now new_jwt =
      (poison_session_family store c.sub c.auth_time now, failed reuse_detected)

  -- An expiry that no timestamp holds ends the call before anything is revoked.
  abbrev pub rotate : Store → Tenant → Claim → User → Text → ℕ → ℕ → Store × Refreshed
  rotate store t c u jwt now minutes = elim (mint (reminted t c u minutes)) [
    | none ↦ (store, failed no_key)
    | some new_jwt ↦
        if ltb latest (c.exp * second)
        then (store, failed expiry_out_of_range)
        else commit (invalid_raw digest latest store jwt (c.exp * second) revoke_fails) c now
            new_jwt
  ]

  abbrev pub with_user : Store → Tenant → Claim → Result User → Text → ℕ → ℕ → Store × Refreshed
  with_user store t c (err _) jwt now minutes = (store, failed user_gone)
  with_user store t c (ok u) jwt now minutes =
      if u.active then rotate store t c u jwt now minutes else (store, failed user_deactivated)

  -- The checks on a token that is valid.
  abbrev pub continue_chain : Store → Tenant → Claim → Text → ℕ → ℕ → Store × Refreshed
  continue_chain store t c jwt now minutes =
      let (store', poisoned) = family_poisoned store c now in
      if poisoned
      then (store', failed chain_revoked)
      else if not (young c.auth_time now)
      then (store', failed session_expired)
      else (elim (parse_uuid c.payload.user) [
        | none ↦ (store', failed invalid_subject)
        | some id ↦ with_user store' t c (user_by_id t id) jwt now minutes
      ])

  abbrev pub after_check : Store → Validated → Tenant → Text → ℕ → ℕ → Store × Refreshed
  after_check store (rejected revoked) t jwt now minutes = replayed store (decode jwt) now
  after_check store (rejected why) t jwt now minutes = (store, failed (token_rejected why))
  after_check store (accepted d) t jwt now minutes = continue_chain store t d.claims jwt now minutes

  unfoldable pub refresh_jwt : Store → Tenant → Text → Text → Text → ℕ → ℕ → Store × Refreshed
  unfolding validate_token
  refresh_jwt store t issuer domain jwt now minutes =
      let (store', v) =
        validate_token digest latest to_lowercase decode store t.policies issuer domain jwt now
          (record { policy = none; domain_bound = false; reject_typ = some api_key_typ }) in
      after_check store' v t jwt now minutes
