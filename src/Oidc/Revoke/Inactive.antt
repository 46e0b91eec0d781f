-- ===== src/Oidc/Revoke/Inactive.antt =====
-- A token that its client revoked through src/oidc.rs is never reported as active again.
use janux.Common.{
  List, Option, Text, ap, arith, chars, false, is_empty, lookup, ltb, none, not, refl, some, subst,
  sym, text_eq, true, ℕ, ◌*◌, ◌+◌, ◌<◌, ◌||◌, ◌∙◌, ◌≡◌, ◌≢◌, ◌≤◌,
}
use janux.Oidc.Refresh.Family.{Before-weaken}
use janux.Revocation.Deadline.{retained_until_lem}
use janux.Oidc.Refresh.Once.{invalid_raw-wins}
use janux.Oidc.Clients.{authenticated}
use janux.Oidc.{OAuth2Client}
use janux.Oidc.Codes.{Services, Flow, Call}
use janux.Oidc.Revoke.{
  AnyClaim, answered, Introspected, revoke, revoke_for, belongs_to, revoke_claim, revoke_kind,
  introspect,
}
use janux.Oidc.Revoke.Guarded.{introspect-active}
use janux.Revocation.{Event, run, second, invalid_raw, retained_until, is_valid}
use janux.Revocation.Lasting.{Before, is_valid-revoked}
use janux.Tenant.{Tenant}

module _ (s : Services) (t t' : Tenant) (q q' : Call) (decode_any : Text → ℕ → Option AnyClaim)
    (f g g' : Flow) (client client' : OAuth2Client) (token : Text) (c : AnyClaim)
    (events : List Event) where
  revoke-own :
      is_empty token ≡ false
      → text_eq client.token_endpoint_auth_method (chars "none") ≡ false
      → decode_any token q.now ≡ some c
      → (not (text_eq c.iss q.issuer) || not (belongs_to c client q.domain)) ≡ false
      → c.exp * second ≤ s.latest
      → (revoke s t q decode_any f (authenticated client) token).0.store
        ≡ (invalid_raw s.digest s.latest
            (revoke_kind s t q decode_any f c token).store
            token
            (c.exp * second)
            q.revoke_fails).0
  unfolding revoke revoke_for revoke_claim
  revoke-own full confidential decoded own room =
      let in_range : ltb s.latest (c.exp * second) ≡ false = ground (arith, room) in
      rw (full, confidential, decoded, revoke, revoke_for) (rw (own, in_range, revoke_claim) refl)

  -- Once a confidential client has revoked a token of its own, introspection reports it as inactive to
  -- every client, whatever happens to the store, up to two minutes after its expiry. The table has
  -- no row for the token and does not fail, the expiry is far from the end of time, and no clock
  -- reading is after the one of the introspection.
  pub revoke-inactive :
      (answer : Introspected)
      → is_empty token ≡ false
      → text_eq client.token_endpoint_auth_method (chars "none") ≡ false
      → decode_any token q.now ≡ some c
      → (not (text_eq c.iss q.issuer) || not (belongs_to c client q.domain)) ≡ false
      → (c.exp + 121) * second ≤ s.latest
      → q.revoke_fails ≡ false
      → lookup (s.digest token) (revoke_kind s t q decode_any f c token).store.rows ≡ none
      → g.store
        ≡ run s.digest s.latest
            (revoke s t q decode_any f (authenticated client) token).0.store
            events
      → Before (q'.now * second) events
      → q'.now ≤ c.exp + 120
      → introspect s t' q' decode_any g (authenticated client') token ≢ (g', answered (some answer))
  revoke-inactive answer full confidential decoded own room works free since early on_time e =
      let store = (revoke_kind s t q decode_any f c token).store in
      let won : invalid_raw s.digest s.latest store token (c.exp * second) q.revoke_fails ≡ (
        (invalid_raw s.digest s.latest store token (c.exp * second) q.revoke_fails).0,
        some true,
      ) =
        subst
          (λ b.
            invalid_raw s.digest s.latest store token (c.exp * second) b
            ≡ ((invalid_raw s.digest s.latest store token (c.exp * second) b).0, some true))
          (sym works) (invalid_raw-wins s.digest s.latest store token (c.exp * second) free) in
      let after_revoke = revoke-own full confidential decoded own (omega arith) in
      let valid = (introspect-active s t' q' decode_any g client' token answer g' e).0 in
      let long = (retained_until_lem s.latest (c.exp * second)).1 (omega arith) in
      let kept : q'.now * second < retained_until s.latest (c.exp * second) = omega arith in
      let b =
        Before-weaken _ (retained_until s.latest (c.exp * second)) events (omega arith) early in
      let found =
        is_valid-revoked s.digest s.latest store _ token (c.exp * second) q.revoke_fails events
          (q'.now * second) won b kept in
      let since' = since ∙ ap (λ x. run s.digest s.latest x events) after_revoke in
      let found' : (is_valid s.digest s.latest g.store token (q'.now * second)).1 ≡ true =
        ap (λ x. (is_valid s.digest s.latest x token (q'.now * second)).1) since' ∙ found in
      let k = sym found' ∙ valid in cc
