-- ===== src/Oidc/Refresh/Family.antt =====
-- Families of refresh tokens in src/oidc.rs: a revoked token or family is refused for ever, however
-- the revocation store is used in between.
use janux.Common.{
  Bool, Bool-cases, List, Text, [], ap, arith, inl, inr, refl, some, subst, sym, true, ℕ, ◌*◌, ◌++◌,
  ◌+◌, ◌<◌, ◌∙◌, ◌∷◌, ◌≡◌, ◌≢◌, ◌≤◌,
}
use janux.Oidc.Issue.{refresh_family_marker, refresh_family_end}
use janux.Tenant.{Tenant}
use janux.Revocation.Deadline.{retained_until_lem}
use janux.Revocation.{
  Store, Event, check, collect, revoke, restart, evict, run, second, after, retained_until,
  invalid_raw, is_valid,
}
use janux.Revocation.Lasting.{Before, is_valid-revoked}
use janux.Oidc.{OAuth2Client, TokenResponse, issued}
use janux.Oidc.Codes.{RefreshClaim, Services, Flow, Call, TokenRequest}
use janux.Oidc.Refresh.{reuse_detected, handle_refresh}
use janux.Oidc.Refresh.Rotated.{handle_refresh-Rotated}

pub Before-weaken : (a b : ℕ) (events : List Event) → a ≤ b → Before a events → Before b events
Before-weaken a b [] le h = h
Before-weaken a b (collect now ∷ events) le (early, h) =
    (omega arith, Before-weaken a b events le h)
Before-weaken a b (revoke id exp fails ∷ events) le h = Before-weaken a b events le h
Before-weaken a b (check token now ∷ events) le h = Before-weaken a b events le h
Before-weaken a b (restart now ∷ events) le h = Before-weaken a b events le h
Before-weaken a b (evict key ∷ events) le h = Before-weaken a b events le h

module _ (digest : Text → Text) (latest : ℕ) where
  run-append :
      (events more : List Event) (store : Store)
      → run digest latest store (events ++ more)
        ≡ run digest latest (run digest latest store events) more
  unfolding run
  run-append [] more store = refl
  run-append (e ∷ events) more store = run-append events more (after digest latest store e)

  run-check :
      (events : List Event) (store : Store) (token : Text) (now : ℕ)
      → run digest latest store (events ++ (check token now ∷ []))
        ≡ (is_valid digest latest (run digest latest store events) token now).0
  unfolding run after
  run-check events store token now = run-append events (check token now ∷ []) store

Before-append :
    (limit : ℕ) (events more : List Event)
    → Before limit events
    → Before limit more
    → Before limit (events ++ more)
Before-append limit [] more h k = k
Before-append limit (collect now ∷ events) more (early, h) k =
    (early, Before-append limit events more h k)
Before-append limit (revoke id exp fails ∷ events) more h k = Before-append limit events more h k
Before-append limit (check token now ∷ events) more h k = Before-append limit events more h k
Before-append limit (restart now ∷ events) more h k = Before-append limit events more h k
Before-append limit (evict key ∷ events) more h k = Before-append limit events more h k

module _ (s : Services) (t : Tenant) (q : Call) (store store' : Store) (id : Text) (exp : ℕ)
    (fails : Bool) (events : List Event) where
  -- The identifier was revoked, and what happened since had clock readings up to this call's.
  abbrev pub RevokedBefore : Store → Type 0
  RevokedBefore now_store =
      (invalid_raw s.digest s.latest store id exp fails ≡ (store', some true))
      × (now_store ≡ run s.digest s.latest store' events)
      × Before (q.now * second) events
      × (q.now * second < retained_until s.latest exp)

  detected-token :
      (now_store : Store) (family : Text)
      → RevokedBefore now_store
      → (reuse_detected s t q now_store id family).1 ≡ true
  unfolding reuse_detected
  detected-token now_store family (won, since, early, kept) =
      let b = Before-weaken _ (retained_until s.latest exp) events (omega arith) early in
      let found : (is_valid s.digest s.latest now_store id (q.now * second)).1 ≡ true =
        ap (λ x. (is_valid s.digest s.latest x id (q.now * second)).1) since
        ∙ is_valid-revoked s.digest s.latest store store' id exp fails events (q.now * second) won b
            kept in
      rw (found, reuse_detected) refl

  detected-marker :
      (now_store : Store) (rt family : Text)
      → id ≡ refresh_family_marker family
      → RevokedBefore now_store
      → (reuse_detected s t q now_store rt family).1 ≡ true
  unfolding reuse_detected
  detected-marker now_store rt family is_marker (won, since, early, kept) =
      elim (Bool-cases (is_valid s.digest s.latest now_store rt (q.now * second)).1) [
        | inl h ↦ rw (h, reuse_detected) refl
        | inr h ↦
            let more = events ++ (check rt (q.now * second) ∷ []) in
            let b =
              Before-append _ events (check rt (q.now * second) ∷ [])
                (Before-weaken _ (retained_until s.latest exp) events (omega arith) early) tt in
            let later : (is_valid s.digest s.latest now_store rt (q.now * second)).0
                ≡ run s.digest s.latest store' more =
              ap (λ x. (is_valid s.digest s.latest x rt (q.now * second)).0) since
              ∙ sym (run-check s.digest s.latest events store' rt (q.now * second)) in
            let found =
              is_valid-revoked s.digest s.latest store store' id exp fails more (q.now * second) won
                b kept in
            rw (h, later, ← is_marker, reuse_detected) found
      ]

  module _ (client : OAuth2Client) (params : TokenRequest) (jti : Text) (f f' : Flow)
      (reply : TokenResponse) where
    -- A family that was poisoned never rotates again.
    pub handle_refresh-poisoned :
        (c : RefreshClaim) (rt : Text) (family_end : ℕ)
        → id ≡ refresh_family_marker c.payload.family
        → exp ≡ family_end * second
        → invalid_raw s.digest s.latest store id exp fails ≡ (store', some true)
        → f.store ≡ run s.digest s.latest store' events
        → Before (q.now * second) events
        → params.refresh_token ≡ some rt
        → s.decode_refresh rt q.now ≡ some c
        → refresh_family_end c.payload.family_created_at ≤ family_end
        → handle_refresh s t q f client params jti ≢ (f', issued reply)
    handle_refresh-poisoned c rt family_end marker until won since early given decoded le e =
        let r = handle_refresh-Rotated s t q client params jti f f' reply e in
        let same_rt : rt ≡ r.rt = let k = sym given ∙ r.presented in cc in
        let same : c ≡ r.claim =
          let k = sym decoded ∙ ap (λ x. s.decode_refresh x q.now) same_rt ∙ r.decoded in cc in
        let in_time : q.now < refresh_family_end c.payload.family_created_at =
          subst (λ (x : RefreshClaim). q.now < refresh_family_end x.payload.family_created_at)
            (sym same) r.in_time in
        let long = (retained_until_lem s.latest exp).0 in
        let kept : q.now * second < retained_until s.latest exp = omega arith in
        let is_marker : id ≡ refresh_family_marker r.claim.payload.family =
          marker ∙ ap (λ (x : RefreshClaim). refresh_family_marker x.payload.family) same in
        let found =
          detected-marker f.store r.rt r.claim.payload.family is_marker (won, since, early, kept) in
        let k = sym found ∙ r.unused in cc

    -- A refresh token that was revoked never rotates.
    pub handle_refresh-revoked :
        (c : RefreshClaim) (rt : Text)
        → id ≡ rt
        → exp ≡ c.exp * second
        → invalid_raw s.digest s.latest store id exp fails ≡ (store', some true)
        → f.store ≡ run s.digest s.latest store' events
        → Before (q.now * second) events
        → params.refresh_token ≡ some rt
        → q.now ≤ c.exp + 120
        → (c.exp + 121) * second ≤ s.latest
        → handle_refresh s t q f client params jti ≢ (f', issued reply)
    handle_refresh-revoked c rt token until won since early given on_time room e =
        let r = handle_refresh-Rotated s t q client params jti f f' reply e in
        let presented : rt ≡ r.rt = let k = sym given ∙ r.presented in cc in
        let same_rt : id ≡ r.rt = token ∙ presented in
        let long = (retained_until_lem s.latest exp).1 (omega arith) in
        let kept : q.now * second < retained_until s.latest exp = omega arith in
        let found = detected-token f.store r.claim.payload.family (won, since, early, kept) in
        let found' : (reuse_detected s t q f.store r.rt r.claim.payload.family).1 ≡ true =
          ap (λ x. (reuse_detected s t q f.store x r.claim.payload.family).1) (sym same_rt)
          ∙ found in
        let k = sym found' ∙ r.unused in cc
