-- ===== src/Tests/Tokens.antt =====
-- Runs of the theorems on tokens and their revocation.
use janux.Common.{
  List, Option, Text, [], arith, chars, false, if◌then◌else◌, none, refl, some, text_eq, true, ℕ,
  ◌*◌, ◌<◌, ◌^◌, ◌∷◌, ◌≡◌,
}
use janux.Tenant.{roles_of_user}
use janux.Members.{user_by_id}
use janux.Revocation.{
  Store, Event, revoke, check, collect, restart, evict, run, retained_until, second, invalid_raw,
  is_valid, read_through,
}
use janux.Revocation.Lasting.{Before, is_valid-revoked}
use janux.Tokens.{
  Claim, TokenDecision, ValidateOpts, accepted, validate_token, client_machine_marker,
  machine_username, rejects_typ, decision, api_key_typ, session_family_marker,
}
use janux.Tokens.Checks.{validate_token-accepts}
use janux.Tokens.Rotation.{Minting, token, failed, reuse_detected, refresh_jwt}
use janux.Tokens.Rotation.Once.{Rotated, refresh_jwt-token, refresh_jwt-once}
use janux.Tests.{office, cache, bob, lower}

abbrev digest : Text → Text
digest s = b'#' ∷ s

abbrev latest : ℕ
latest = 10 ^ 20

abbrev blank : Store
blank = record { rows = []; cache = [] }

abbrev old : Text
old = chars "old"

abbrev exp : ℕ
exp = 2000 * second

abbrev kept : ℕ
kept = 2121 * second

abbrev gone : Store
gone = record { rows = (chars "#old", kept) ∷ []; cache = (chars "#old", kept) ∷ [] }

revoked_old : invalid_raw digest latest blank old exp false ≡ (gone, some true)
unfolding invalid_raw retained_until
revoked_old = refl

abbrev events : List Event
events =
    evict (chars "#old")
    ∷ collect (1500 * second)
    ∷ restart (1600 * second)
    ∷ revoke old exp false
    ∷ check old (1700 * second)
    ∷ []

events-Before : Before (retained_until latest exp) events
unfolding retained_until
events-Before = (omega arith, tt)

in_time : 2120 * second < retained_until latest exp
unfolding retained_until
in_time = omega arith

is_valid-revoked_example :
    (is_valid digest latest (run digest latest gone events) old (2120 * second)).1 ≡ true
is_valid-revoked_example =
    is_valid-revoked digest latest blank gone old exp false events (2120 * second) revoked_old
      events-Before in_time

abbrev claim : Claim
claim = record {
  iss = chars "https://a.io";
  sub = chars "u2";
  exp = 2000;
  iat = 1100;
  auth_time = some 1000;
  payload = bob;
}

abbrev decode : Text → Option Claim
decode s = if text_eq s old then some claim else none

abbrev plain_opts : ValidateOpts
plain_opts = record { policy = none; domain_bound = true; reject_typ = some api_key_typ }

abbrev passed : TokenDecision
passed = record { claims = claim; can_access = true; expect_mfa = false }

validates :
    (validate_token digest latest lower decode blank cache
      (chars "https://a.io")
      (chars "a.io")
      old
      (1200 * second)
      plain_opts).1
    ≡ accepted passed
unfolding validate_token is_valid read_through
validates = refl

validate_token-accepts_example :
    ((is_valid digest latest blank old (1200 * second)).1 ≡ false)
    × ((c : Claim) × (decode old ≡ some c)
        × (c.iss ≡ chars "https://a.io")
        × (machine_username c.payload ≡ true
            → (is_valid digest latest
                (is_valid digest latest blank old (1200 * second)).0
                (client_machine_marker c.sub)
                (1200 * second)).1
              ≡ false)
        × (rejects_typ plain_opts.reject_typ c.payload.typ ≡ false)
        × (plain_opts.domain_bound ≡ true → c.payload.domain ≡ chars "a.io")
        × (passed ≡ decision digest latest lower decode cache (chars "a.io") plain_opts c))
validate_token-accepts_example =
    validate_token-accepts digest latest lower decode blank cache (chars "https://a.io")
      (chars "a.io") old (1200 * second) plain_opts passed validates

abbrev uuid : Text → Option Text
uuid s = some s

abbrev mint : Minting → Option Text
mint m = some (chars "new")

rotated :
    refresh_jwt digest latest lower decode uuid mint false false blank office
      (chars "https://a.io")
      (chars "a.io")
      old
      (1200 * second)
      15
    ≡ (gone, token (chars "new"))
unfolding refresh_jwt validate_token is_valid read_through session_family_marker user_by_id
    roles_of_user invalid_raw retained_until
rotated = refl

refresh_jwt-token_example :
    (c : Claim) × (decode old ≡ some c)
    × (c.iss ≡ chars "https://a.io")
    × (rejects_typ (some api_key_typ) c.payload.typ ≡ false)
    × Rotated digest latest lower decode uuid mint false false office c old
        (1200 * second)
        15
        gone
        (chars "new")
refresh_jwt-token_example =
    refresh_jwt-token digest latest lower decode uuid mint false false blank gone office
      (chars "https://a.io") (chars "a.io") old (1200 * second) 15 (chars "new") rotated

refresh_jwt-once_example :
    (refresh_jwt digest latest lower decode uuid mint false false
      (run digest latest gone events)
      office
      (chars "https://a.io")
      (chars "a.io")
      old
      (2120 * second)
      15).1
    ≡ failed reuse_detected
refresh_jwt-once_example =
    refresh_jwt-once digest latest lower decode uuid mint false false blank gone office office
      (chars "https://a.io") (chars "a.io") old (1200 * second) 15 (chars "new") claim events
      (2120 * second) rotated refl events-Before in_time
