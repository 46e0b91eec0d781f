-- ===== src/Tokens/Rotation/Once.antt =====
-- What a rotation of a session token in src/db.rs has checked, and that it happens once.
use janux.Common.{
  Bool, Bool-cases, List, Option, Option-cases, Text, ap, arith, false, inl, inr, ltb, max, none,
  refl, some, subst, sym, true, ℕ, ◌*◌, ◌<◌, ◌∙◌, ◌≡◌, ◌≤◌,
}
use janux.Tenant.{User, Tenant, Result, ok, err}
use janux.Members.{user_by_id}
use janux.Revocation.{Store, Event, run, retained_until, second, invalid_raw, is_valid}
use janux.Revocation.Lasting.{Before, is_valid-revoked}
use janux.Tokens.Checks.{validate_token-gone, validate_token-accepts}
use janux.Tokens.{
  Claim, invalid, issuer_mismatch, revoked, type_mismatch, domain_mismatch, TokenDecision,
  Validated, accepted, rejected, ValidateOpts, validate_token, rejects_typ, api_key_typ,
}
use janux.Tokens.Rotation.{
  Minting, RefreshError, reuse_detected, Refreshed, token, failed, reminted, young, commit, rotate,
  with_user, continue_chain, after_check, replayed, family_poisoned, refresh_jwt, presented_minutes,
}

clash :
    (s s' : Store) (e : RefreshError) (new : Text)
    → ◌≡◌ {A = Store × Refreshed} (s, failed e) (s', token new)
    → ⊥
clash s s' e new h = let k = ap (λ x. x.1) h in cc

pub presented_minutes-range :
    (c : Claim) (minutes : ℕ)
    → (1 ≤ presented_minutes c minutes) × (presented_minutes c minutes ≤ max minutes 1)
presented_minutes-range c minutes = (ground arith, ground arith)

some-injective : (c d : Claim) → some c ≡ some d → c ≡ d
some-injective c d e = cc

module _ (digest : Text → Text) (latest : ℕ) (low : Text → Text) (decode : Text → Option Claim)
    (uuid : Text → Option Text) (mint : Minting → Option Text) (no_revoke no_poison : Bool) where
  -- What a rotation that hands out a token rests on.
  abbrev pub Rotated : Tenant → Claim → Text → ℕ → ℕ → Store → Text → Type 0
  Rotated t c jwt now minutes s' new =
      (id : Text) × (u : User) × (uuid c.payload.user ≡ some id)
      × (user_by_id t id ≡ ok u)
      × (u.active ≡ true)
      × (young c.auth_time now ≡ true)
      × (mint (reminted t c u minutes) ≡ some new)
      × ((s : Store) × (invalid_raw digest latest s jwt (c.exp * second) no_revoke
            ≡ (s', some true)))

  commit-inv :
      (w : Store × Option Bool) (c : Claim) (now : ℕ) (x new : Text) (s' : Store)
      → commit digest latest low decode uuid mint no_revoke no_poison w c now x ≡ (s', token new)
      → (w ≡ (s', some true)) × (x ≡ new)
  commit-inv (s, none) c now x new s' e = absurd (clash _ _ _ _ e)
  commit-inv (s, some false) c now x new s' e = absurd (clash _ _ _ _ e)
  commit-inv (s, some true) c now x new s' e =
      let same : s ≡ s' = ap (λ y. y.0) e in
      let result : token x ≡ token new = ap (λ y. y.1) e in (ap (λ y. (y, some true)) same, cc)

  rotate-inv :
      (s s' : Store) (t : Tenant) (c : Claim) (u : User) (jwt : Text) (now minutes : ℕ) (new : Text)
      → rotate digest latest low decode uuid mint no_revoke no_poison s t c u jwt now minutes
        ≡ (s', token new)
      → (mint (reminted t c u minutes) ≡ some new)
        × (invalid_raw digest latest s jwt (c.exp * second) no_revoke ≡ (s', some true))
  rotate-inv s s' t c u jwt now minutes new e =
      elim (Option-cases (mint (reminted t c u minutes))) [
        | inl h ↦ absurd (clash _ _ _ _ (rw (h, rotate) at e))
        | inr (x, h) ↦ elim (Bool-cases (ltb latest (c.exp * second))) [
          | inl late ↦ absurd (clash _ _ _ _ (rw (h, late, rotate) at e))
          | inr early ↦
              let (a, b) =
                commit-inv (invalid_raw digest latest s jwt (c.exp * second) no_revoke) c now x new
                  s' (rw (h, early, rotate) at e) in
              (h ∙ ap some b, a)
        ]
      ]

  with_user-inv :
      (s s' : Store) (t : Tenant) (c : Claim) (r : Result User) (jwt : Text) (now minutes : ℕ)
      (new : Text)
      → with_user digest latest low decode uuid mint no_revoke no_poison s t c r jwt now minutes
        ≡ (s', token new)
      → (u : User) × (r ≡ ok u)
        × (u.active ≡ true)
        × (mint (reminted t c u minutes) ≡ some new)
        × (invalid_raw digest latest s jwt (c.exp * second) no_revoke ≡ (s', some true))
  with_user-inv s s' t c (err _) jwt now minutes new e = absurd (clash _ _ _ _ e)
  with_user-inv s s' t c (ok u) jwt now minutes new e = elim (Bool-cases u.active) [
    | inl h ↦
        let (a, b) = rotate-inv s s' t c u jwt now minutes new (rw h at e) in (u, refl, h, a, b)
    | inr h ↦ absurd (clash _ _ _ _ (rw h at e))
  ]

  continue_chain-inv :
      (s s' : Store) (t : Tenant) (c : Claim) (jwt : Text) (now minutes : ℕ) (new : Text)
      → continue_chain digest latest low decode uuid mint no_revoke no_poison s t c jwt now minutes
        ≡ (s', token new)
      → Rotated t c jwt now minutes s' new
  continue_chain-inv s s' t c jwt now minutes new e =
      let family = family_poisoned digest latest low decode uuid mint no_revoke no_poison s c now in
      elim (Bool-cases family.1) [
        | inl h ↦ absurd (clash _ _ _ _ (rw h at e))
        | inr h ↦ elim (Bool-cases (young c.auth_time now)) [
          | inr old ↦ absurd (clash _ _ _ _ (rw (h, old) at e))
          | inl fresh ↦ elim (Option-cases (uuid c.payload.user)) [
            | inl none_such ↦ absurd (clash _ _ _ _ (rw (h, fresh, none_such) at e))
            | inr (id, parsed) ↦
                let (u, found, active, minted, won) =
                  with_user-inv family.0 s' t c (user_by_id t id) jwt now minutes new
                    (rw (h, fresh, parsed) at e) in
                (id, u, parsed, found, active, fresh, minted, (family.0, won))
          ]
        ]
      ]

  after_check-inv :
      (s s' : Store) (v : Validated) (t : Tenant) (jwt : Text) (now minutes : ℕ) (new : Text)
      → after_check digest latest low decode uuid mint no_revoke no_poison s v t jwt now minutes
        ≡ (s', token new)
      → (d : TokenDecision) × (v ≡ accepted d) × Rotated t d.claims jwt now minutes s' new
  after_check-inv s s' (rejected revoked) t jwt now minutes new e =
      elim (Option-cases (decode jwt)) [
        | inl h ↦ absurd (clash _ _ _ _ (rw h at e))
        | inr (c, h) ↦ absurd (clash _ _ _ _ (rw h at e))
      ]
  after_check-inv s s' (rejected invalid) t jwt now minutes new e = absurd (clash _ _ _ _ e)
  after_check-inv s s' (rejected issuer_mismatch) t jwt now minutes new e = absurd (clash _ _ _ _ e)
  after_check-inv s s' (rejected type_mismatch) t jwt now minutes new e = absurd (clash _ _ _ _ e)
  after_check-inv s s' (rejected domain_mismatch) t jwt now minutes new e = absurd (clash _ _ _ _ e)
  after_check-inv s s' (accepted d) t jwt now minutes new e =
      (d, refl, continue_chain-inv s s' t d.claims jwt now minutes new e)

  -- A rotation that hands out a token was of a token with this issuer that is not an API key, whose
  -- login is at most 30 days old and whose user exists and is active; the new token is minted with
  -- the user's name and roles of now and the old login time, and the old token was revoked by this
  -- call.
  pub refresh_jwt-token :
      (s s' : Store) (t : Tenant) (issuer domain jwt : Text) (now minutes : ℕ) (new : Text)
      → refresh_jwt digest latest low decode uuid mint no_revoke no_poison s t issuer domain jwt now
          minutes
        ≡ (s', token new)
      → (c : Claim) × (decode jwt ≡ some c)
        × (c.iss ≡ issuer)
        × (rejects_typ (some api_key_typ) c.payload.typ ≡ false)
        × Rotated t c jwt now minutes s' new
  unfolding refresh_jwt
  refresh_jwt-token s s' t issuer domain jwt now minutes new e =
      let opts : ValidateOpts = record {
        policy = none;
        domain_bound = false;
        reject_typ = some api_key_typ;
      } in
      let checked =
        validate_token digest latest low decode s t.policies issuer domain jwt now opts in
      let (d, passed, rotated) = after_check-inv checked.0 s' checked.1 t jwt now minutes new e in
      let (_, (c, h, same, _, typ, _, outcome)) =
        validate_token-accepts digest latest low decode s t.policies issuer domain jwt now opts d
          passed in
      let whose : d.claims ≡ c = ap (λ x. x.claims) outcome in
      (c, h, same, typ, subst (λ x. Rotated t x jwt now minutes s' new) whose rotated)

  replayed-reuse :
      (s : Store) (o : Option Claim) (now : ℕ)
      → (replayed digest latest low decode uuid mint no_revoke no_poison s o now).1
        ≡ failed reuse_detected
  replayed-reuse s none now = refl
  replayed-reuse s (some c) now = refl

  -- A token that the store knows as revoked is never rotated.
  refresh_jwt-gone :
      (s : Store) (t : Tenant) (issuer domain jwt : Text) (now minutes : ℕ)
      → (is_valid digest latest s jwt now).1 ≡ true
      → (refresh_jwt digest latest low decode uuid mint no_revoke no_poison s t issuer domain jwt
          now minutes).1
        ≡ failed reuse_detected
  unfolding refresh_jwt
  refresh_jwt-gone s t issuer domain jwt now minutes h =
      let opts : ValidateOpts = record {
        policy = none;
        domain_bound = false;
        reject_typ = some api_key_typ;
      } in
      let checked =
        validate_token digest latest low decode s t.policies issuer domain jwt now opts in
      let gone =
        validate_token-gone digest latest low decode s t.policies issuer domain jwt now opts h in
      ap
        (λ v.
          (after_check digest latest low decode uuid mint no_revoke no_poison checked.0 v t jwt now
            minutes).1)
        gone
      ∙ replayed-reuse checked.0 (decode jwt) now

  -- After a rotation of a token, through every sequence of calls on the store, collections, restarts
  -- and evictions, a second rotation of the same token, for whatever state of the tenant, ends in the
  -- detection of reuse, as long as no collection is later than the end of the retention of the
  -- record, and the second rotation is earlier than it.
  pub refresh_jwt-once :
      (s s' : Store) (t t' : Tenant) (issuer domain jwt : Text) (now minutes : ℕ) (new : Text)
      (c : Claim) (events : List Event) (later : ℕ)
      → refresh_jwt digest latest low decode uuid mint no_revoke no_poison s t issuer domain jwt now
          minutes
        ≡ (s', token new)
      → decode jwt ≡ some c
      → Before (retained_until latest (c.exp * second)) events
      → later < retained_until latest (c.exp * second)
      → (refresh_jwt digest latest low decode uuid mint no_revoke no_poison
          (run digest latest s' events)
          t'
          issuer
          domain
          jwt
          later
          minutes).1
        ≡ failed reuse_detected
  refresh_jwt-once s s' t t' issuer domain jwt now minutes new c events later e h b lt =
      let (c', h', _, _, rotated) = refresh_jwt-token s s' t issuer domain jwt now minutes new e in
      let (_, _, _, _, _, _, _, (s1, won)) = rotated in
      let same : c' ≡ c = some-injective c' c (sym h' ∙ h) in
      refresh_jwt-gone (run digest latest s' events) t' issuer domain jwt later minutes (
        is_valid-revoked digest latest s1 s' jwt (c.exp * second) no_revoke events later
          (subst
            (λ x. invalid_raw digest latest s1 jwt (x.exp * second) no_revoke ≡ (s', some true))
            same won)
          b lt)
