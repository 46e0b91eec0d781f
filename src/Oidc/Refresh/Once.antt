-- ===== src/Oidc/Refresh/Once.antt =====
-- Reuse in src/oidc.rs: a refresh token rotates once, and presenting a revoked one or replaying an
-- authorization code ends the whole family.
use janux.Common.{
  List, Text, ap, false, lookup, none, refl, some, sym, true, ℕ, ◌*◌, ◌+◌, ◌∙◌, ◌≡◌, ◌≢◌, ◌≤◌,
}
use janux.Oidc.Exchange.{replayed_grant, replayed_grant, replayed_grant}
use janux.Tenant.{Tenant}
use janux.Revocation.{Store, Event, run, second, invalid_raw}
use janux.Revocation.Lasting.{Before}
use janux.Oidc.{OAuth2Client, TokenResponse, issued}
use janux.Oidc.Codes.{RefreshClaim, Services, Flow, Call, TokenRequest}
use janux.Oidc.Refresh.{handle_refresh}
use janux.Oidc.Refresh.Rotated.{handle_refresh-Rotated}
use janux.Oidc.Refresh.Family.{handle_refresh-revoked}

-- A call that finds no row and does not fail wins.
pub invalid_raw-wins :
    (digest : Text → Text) (latest : ℕ) (store : Store) (id : Text) (exp : ℕ)
    → lookup (digest id) store.rows ≡ none
    → invalid_raw digest latest store id exp false
      ≡ ((invalid_raw digest latest store id exp false).0, some true)
unfolding invalid_raw
invalid_raw-wins digest latest store id exp free = rw (free, invalid_raw) refl

module _ (s : Services) (t t' : Tenant) (q q' : Call) (client client' : OAuth2Client)
    (params params' : TokenRequest) (jti jti' : Text) (f f' g g' : Flow)
    (reply reply' : TokenResponse) (events : List Event) where
  -- When a rotation has answered with tokens, the same refresh token never rotates again: in no
  -- later state of the store whose clock readings are not after the new call's, where the token
  -- decodes to the same expiry and not later than its two minutes of grace, far from the end of time.
  pub handle_refresh-once :
      (rt : Text) (c : RefreshClaim)
      → handle_refresh s t q f client params jti ≡ (f', issued reply)
      → params.refresh_token ≡ some rt
      → params'.refresh_token ≡ some rt
      → s.decode_refresh rt q.now ≡ some c
      → q'.now ≤ c.exp + 120
      → (c.exp + 121) * second ≤ s.latest
      → g.store ≡ run s.digest s.latest f'.store events
      → Before (q'.now * second) events
      → handle_refresh s t' q' g client' params' jti' ≢ (g', issued reply')
  handle_refresh-once rt c e given given' decoded on_time room since early =
      let r = handle_refresh-Rotated s t q client params jti f f' reply e in
      let same_rt : r.rt ≡ rt = let k = sym r.presented ∙ given in cc in
      let same : r.claim ≡ c =
        let k = sym r.decoded ∙ ap (λ x. s.decode_refresh x q.now) same_rt ∙ decoded in cc in
      handle_refresh-revoked s t' q' _ f'.store r.rt (r.claim.exp * second) q.revoke_fails events
        client' params' jti' g g' reply' c rt same_rt
        (ap (λ (x : RefreshClaim). x.exp * second) same) r.won since early given' on_time room
