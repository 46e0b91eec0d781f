-- ===== src/Oidc/Refresh/Rotated.antt =====
-- What a rotation in src/oidc.rs has gone through when it answers with tokens.
use janux.Common.{
  Bool, Bool-cases, Option, Option-cases, Text, ap, arith, chars, false, inl, inr, is_empty, leb,
  none, not, some, subst, text_eq, text_eq_iff, trim, true, ◌*◌, ◌<◌, ◌||◌, ◌∙◌, ◌≡◌,
}
use janux.Revocation.{invalid_raw, second, Store}
use janux.Tenant.{Tenant}
use janux.Oidc.Scopes.{scopes_cover_refl, scopes_cover}
use janux.Oidc.{OAuth2Client, TokenResponse, issued, require_active_user}
use janux.Oidc.Codes.{RefreshClaim, Services, Flow, Call, TokenRequest}
use janux.Oidc.Issue.{Grant, sign_tokens, refresh_family_end}
use janux.Oidc.Refresh.{
  rotate_tokens, reuse_detected, narrowed_scope, commit_rotation, poisoned, rotation_grant,
  handle_refresh, refresh_claim, rotate_live, refresh_presented, with_store,
}

module _ (s : Services) (t : Tenant) (q : Call) (client : OAuth2Client) (params : TokenRequest)
    (jti : Text) where
  -- The presented token is a refresh token of this issuer for this client within the life of its
  -- family, neither it nor its family is revoked, its user is active, the scope stays within the granted one, and this
  -- call is the one that revoked it.
  pub record Rotated (f f' : Flow) (reply : TokenResponse) : Type 0 where
    pub rt : Text
    pub claim : RefreshClaim
    pub scope : Text
    pub presented : params.refresh_token ≡ some rt
    pub decoded : s.decode_refresh rt q.now ≡ some claim
    pub issuer : claim.iss ≡ q.issuer
    pub typ : claim.payload.typ ≡ chars "refresh"
    pub own : claim.payload.client_id ≡ client.id
    pub in_time : q.now < refresh_family_end claim.payload.family_created_at
    pub unused : (reuse_detected s t q f.store rt claim.payload.family).1 ≡ false
    pub live : require_active_user s.parse_uuid t claim.sub ≡ true
    pub narrowed : scopes_cover claim.payload.scope scope ≡ true
    pub tokens : sign_tokens s.sign (rotation_grant q client params claim scope jti) ≡ some reply
    pub won :
        invalid_raw s.digest s.latest
          (reuse_detected s t q f.store rt claim.payload.family).0
          rt
          (claim.exp * second)
          q.revoke_fails
        ≡ (f'.store, some true)

  narrowed_scope-cover :
      (granted scope : Text) (requested : Option Text)
      → narrowed_scope granted requested ≡ some scope
      → scopes_cover granted scope ≡ true
  unfolding narrowed_scope
  narrowed_scope-cover granted scope none e =
      let k : granted ≡ scope = cc in
      subst (λ x. scopes_cover granted x ≡ true) k (scopes_cover_refl granted)
  narrowed_scope-cover granted scope (some requested) e =
      elim (Bool-cases (is_empty (trim requested))) [
        | inl blank ↦
            let k : granted ≡ scope = let j = rw blank at e in cc in
            subst (λ x. scopes_cover granted x ≡ true) k (scopes_cover_refl granted)
        | inr full ↦ elim (Bool-cases (scopes_cover granted requested)) [
          | inl within ↦
              let k : requested ≡ scope = let j = rw (full, within) at e in cc in
              subst (λ x. scopes_cover granted x ≡ true) k within
          | inr beyond ↦ absurd (ground (arith, rw (full, beyond) at e))
        ]
      ]

  commit-won :
      (f f' : Flow) (g : Grant) (c : RefreshClaim) (reply reply' : TokenResponse)
      (r : Store × Option Bool)
      → commit_rotation s t q f g c reply r ≡ (f', issued reply')
      → (r ≡ (f'.store, some true)) × (reply ≡ reply')
  unfolding commit_rotation poisoned
  commit-won f f' g c reply reply' (store, none) e = let k = ap (λ x. x.1) e in cc
  commit-won f f' g c reply reply' (store, some false) e = let k = ap (λ x. x.1) e in cc
  commit-won f f' g c reply reply' (store, some true) e =
      let k = ap (λ x. x.1) e in
      let kept : store ≡ f'.store = ap (λ x. x.0.store) e in (ap (λ x. (x, some true)) kept, cc)

  rotate_tokens-won :
      (f f' : Flow) (g : Grant) (c : RefreshClaim) (rt : Text) (reply : TokenResponse)
      → rotate_tokens s t q f g c rt ≡ (f', issued reply)
      → (sign_tokens s.sign g ≡ some reply)
        × (invalid_raw s.digest s.latest f.store rt (c.exp * second) q.revoke_fails
            ≡ (f'.store, some true))
  unfolding rotate_tokens
  rotate_tokens-won f f' g c rt reply e = elim (Bool-cases q.has_key) [
    | inr h ↦ let k = ap (λ x. x.1) (rw (h, rotate_tokens) at e) in cc
    | inl h ↦ elim (Option-cases (sign_tokens s.sign g)) [
      | inl failing ↦ let k = ap (λ x. x.1) (rw (h, failing, rotate_tokens) at e) in cc
      | inr (r, signed_all) ↦
          let (won, same) =
            commit-won f f' g c r reply _ (rw (h, signed_all, rotate_tokens) at e) in
          (signed_all ∙ ap some same, won)
    ]
  ]

  rotate_live-won :
      (f f' : Flow) (c : RefreshClaim) (rt : Text) (reply : TokenResponse)
      → rotate_live s t q f client params c rt jti ≡ (f', issued reply)
      → (scope : Text) × (require_active_user s.parse_uuid t c.sub ≡ true)
        × (scopes_cover c.payload.scope scope ≡ true)
        × (sign_tokens s.sign (rotation_grant q client params c scope jti) ≡ some reply)
        × (invalid_raw s.digest s.latest f.store rt (c.exp * second) q.revoke_fails
            ≡ (f'.store, some true))
  unfolding rotate_live
  rotate_live-won f f' c rt reply e = elim (Bool-cases (require_active_user s.parse_uuid t c.sub)) [
    | inr dead ↦ let k = ap (λ x. x.1) (rw (dead, rotate_live) at e) in cc
    | inl live ↦ elim (Option-cases (narrowed_scope c.payload.scope params.scope)) [
      | inl beyond ↦ let k = ap (λ x. x.1) (rw (live, beyond, rotate_live) at e) in cc
      | inr (scope, within) ↦
          let (signed_all, won) =
            rotate_tokens-won f f' (rotation_grant q client params c scope jti) c rt reply
              (rw (live, within, rotate_live) at e) in
          (
            scope,
            live,
            narrowed_scope-cover c.payload.scope scope params.scope within,
            signed_all,
            won,
          )
    ]
  ]

  -- The token presented is the client's own: its issuer, its type and its client.
  abbrev foreign : RefreshClaim → Bool
  foreign c =
      not (text_eq c.iss q.issuer)
      || not (text_eq c.payload.typ (chars "refresh"))
      || not (text_eq c.payload.client_id client.id)

  refresh_claim-Rotated :
      (f f' : Flow) (c : RefreshClaim) (rt : Text) (reply : TokenResponse)
      → params.refresh_token ≡ some rt
      → s.decode_refresh rt q.now ≡ some c
      → refresh_claim s t q f client params c rt jti ≡ (f', issued reply)
      → Rotated f f' reply
  unfolding refresh_claim poisoned
  refresh_claim-Rotated f f' c rt reply given decoded e = elim (Bool-cases (foreign c)) [
    | inl h ↦ let k = ap (λ x. x.1) (rw (h, refresh_claim) at e) in cc
    | inr own ↦ elim (Bool-cases (leb (refresh_family_end c.payload.family_created_at) q.now)) [
      | inl late ↦ let k = ap (λ x. x.1) (rw (own, late, refresh_claim) at e) in cc
      | inr early ↦ elim (Bool-cases (reuse_detected s t q f.store rt c.payload.family).1) [
        | inl again ↦ let k = ap (λ x. x.1) (rw (own, early, again, refresh_claim) at e) in cc
        | inr fresh ↦
            let (scope, live, narrowed, tokens, won) =
              rotate_live-won
                (with_store s t q f (reuse_detected s t q f.store rt c.payload.family).0) f' c rt
                reply (rw (own, early, fresh, refresh_claim) at e) in
            record {
              rt = rt;
              claim = c;
              scope = scope;
              presented = given;
              decoded = decoded;
              issuer = (text_eq_iff c.iss q.issuer).0 (ground (arith, own));
              typ = (text_eq_iff c.payload.typ (chars "refresh")).0 (ground (arith, own));
              own = (text_eq_iff c.payload.client_id client.id).0 (ground (arith, own));
              in_time = ground (arith, early);
              unused = fresh;
              live = live;
              narrowed = narrowed;
              tokens = tokens;
              won = won;
            }
      ]
    ]
  ]

  pub handle_refresh-Rotated :
      (f f' : Flow) (reply : TokenResponse)
      → handle_refresh s t q f client params jti ≡ (f', issued reply)
      → Rotated f f' reply
  unfolding handle_refresh refresh_presented
  handle_refresh-Rotated f f' reply e = elim (Option-cases params.refresh_token) [
    | inl absent ↦ let k = ap (λ x. x.1) (rw (absent, handle_refresh) at e) in cc
    | inr (rt, given) ↦ elim (Bool-cases (is_empty rt)) [
      | inl empty ↦ let k = ap (λ x. x.1) (rw (given, empty, handle_refresh) at e) in cc
      | inr full ↦ elim (Option-cases (s.decode_refresh rt q.now)) [
        | inl bad ↦
            let k = ap (λ x. x.1) (rw (given, full, bad, handle_refresh, refresh_presented) at e) in
            cc
        | inr (c, decoded) ↦
            refresh_claim-Rotated f f' c rt reply given decoded
              (rw (given, full, decoded, handle_refresh, refresh_presented) at e)
      ]
    ]
  ]
