-- ===== src/Oidc/Consent/Bound.antt =====
-- No authorization code of src/oidc.rs without the consent of its user.
use janux.Common.{
  Bool, Bool-cases, Option, Text, ap, arith, chars, contains, false, inl, inr, lookup, none, not,
  refl, some, sym, true, ℕ, ◌&&◌, ◌∙◌, ◌≡◌, ◌≢◌,
}
use janux.Oidc.Scopes.{scopes_cover}
use janux.Oidc.Consents.{auth_grant_find}
use janux.Oidc.Consent.{issue_for, authorize_session, issued_hop, covers, parked_hop}
use janux.Oidc.{AuthGrant}
use janux.Oidc.Codes.{Services, Flow, CodeEntry, code_key, code_entry, CodeRequest}
use janux.Oidc.Codes.Issued.{issue_authorization_code-parked}
use janux.Oidc.Authorize.{
  PendingEntry, Session, AuthorizeRequest, callback_code, Authorizing, Draws, Checked, prompts,
  to_consent, to_login, parked_pkce, session_time,
}
use janux.Oidc.DeviceLogin.{GrantFaults}
use janux.Ephem.{Entries}

-- The code stands for the session's user, the client and the scope.
abbrev pub StandsFor : Authorizing → Text → Text → Text → Text → Type 0
StandsFor a code user client_id scope =
    (e : CodeEntry) × (lookup (code_key code) a.flow.auth_codes ≡ some e)
    × (e.user_id ≡ user)
    × (e.client_id ≡ client_id)
    × (e.scope ≡ scope)

-- A live grant of the session's user for the client that covers the scope.
abbrev pub Consented : Authorizing → Text → Text → Text → Type 0
Consented a user client_id scope =
    (grant : AuthGrant) × (auth_grant_find a.flow.grants user client_id ≡ some grant)
    × (scopes_cover grant.scope scope ≡ true)

module _ (s : Services) (faults : GrantFaults) (draws : Draws) (now : ℕ) where
  pub issued_hop-code :
      (a a' : Authorizing) (r : Flow × Option Text) (callback_uri uri code : Text)
      → issued_hop a r callback_uri ≡ (a', callback_code uri code)
      → (flow : Flow) × (uri ≡ callback_uri) × (a'.pending ≡ a.pending) × (r ≡ (a'.flow, some code))
  issued_hop-code a a' (flow, none) callback_uri uri code e = let k = ap (λ x. x.1) e in cc
  issued_hop-code a a' (flow, some drawn) callback_uri uri code e =
      let hop = ap (λ x. x.1) e in
      let same : drawn ≡ code = cc in
      (
        flow,
        cc,
        ap (λ x. x.0.pending) (sym e),
        ap (λ (x : Authorizing). (x.flow, some drawn)) (ap (λ x. x.0) e)
            ∙ ap (λ c. (a'.flow, some c)) same,
      )

  pub issue_for-code :
      (a a' : Authorizing) (session : Session) (client_id callback_uri scope : Text)
      (nonce challenge : Option Text) (uri code : Text)
      → issue_for s faults draws now a session client_id callback_uri scope nonce challenge
        ≡ (a', callback_code uri code)
      → (uri ≡ callback_uri)
        × (a'.pending ≡ a.pending)
        × StandsFor a' code session.user client_id scope
  unfolding issue_for code_entry
  issue_for-code a a' session client_id callback_uri scope nonce challenge uri code e =
      let r : CodeRequest = record {
        client_id = client_id;
        callback_uri = callback_uri;
        user_id = session.user;
        scope = scope;
        nonce = nonce;
        pkce = parked_pkce challenge;
        mfa = session.mfa;
        auth_time = session_time session now;
      } in
      let (flow, uri_same, pending, made) = issued_hop-code a a' _ callback_uri uri code e in
      let (entry, recorded) =
        issue_authorization_code-parked s faults.create_fails r draws.jti now a.flow a'.flow
          draws.codes code made in
      (uri_same, pending, (code_entry r draws.jti now, entry, refl, refl, refl))

  pub covers-grant :
      (o : Option AuthGrant) (scope : Text)
      → covers o scope ≡ true
      → (grant : AuthGrant) × (o ≡ some grant) × (scopes_cover grant.scope scope ≡ true)
  covers-grant none scope e = cc
  covers-grant (some grant) scope e = (grant, refl, e)

  pub parked_hop-code :
      (a a' : Authorizing) (r : Entries PendingEntry × Bool) (csrf uri code : Text)
      → parked_hop a r (to_consent csrf) ≢ (a', callback_code uri code)
  parked_hop-code a a' (pending, true) csrf uri code e = let k = ap (λ x. x.1) e in cc
  parked_hop-code a a' (pending, false) csrf uri code e = let k = ap (λ x. x.1) e in cc

  pub parked_hop-login :
      (a a' : Authorizing) (r : Entries PendingEntry × Bool) (csrf uri code : Text)
      → parked_hop a r (to_login csrf) ≢ (a', callback_code uri code)
  parked_hop-login a a' (pending, true) csrf uri code e = let k = ap (λ x. x.1) e in cc
  parked_hop-login a a' (pending, false) csrf uri code e = let k = ap (λ x. x.1) e in cc

  -- Without a grant that covers the scope, or when consent is asked for, no code is issued.
  parks :
      (a a' : Authorizing) (r : AuthorizeRequest) (k : Checked) (session : Session)
      (uri code : Text)
      → (not (contains (chars "consent") (prompts r.prompt))
          && covers (auth_grant_find a.flow.grants session.user k.client_id) k.scope)
        ≡ false
      → authorize_session s faults draws now a r k session ≢ (a', callback_code uri code)
  unfolding authorize_session
  parks a a' r k session uri code uncovered e =
      elim (Bool-cases (contains (chars "none") (prompts r.prompt))) [
        | inl silent ↦ let j = ap (λ x. x.1) (rw (uncovered, silent, authorize_session) at e) in cc
        | inr visible ↦
            parked_hop-code a a' _ draws.csrf_state uri code
              (rw (uncovered, visible, authorize_session) at e)
      ]

  pub authorize_session-code :
      (a a' : Authorizing) (r : AuthorizeRequest) (k : Checked) (session : Session)
      (uri code : Text)
      → authorize_session s faults draws now a r k session ≡ (a', callback_code uri code)
      → (uri ≡ k.callback_uri)
        × Consented a session.user k.client_id k.scope
        × StandsFor a' code session.user k.client_id k.scope
  unfolding authorize_session
  authorize_session-code a a' r k session uri code e =
      elim (Bool-cases (contains (chars "consent") (prompts r.prompt))) [
        | inl asked ↦ absurd (parks a a' r k session uri code (ground (arith, asked)) e)
        | inr silent ↦
            elim (Bool-cases
              (covers (auth_grant_find a.flow.grants session.user k.client_id) k.scope)) [
                | inr uncovered ↦
                    absurd (parks a a' r k session uri code (ground (arith, uncovered)) e)
                | inl covered ↦
                    let (same, pending, stands) =
                      issue_for-code a a' session k.client_id k.callback_uri k.scope r.nonce
                        k.challenge uri code (rw (silent, covered, authorize_session) at e) in
                    (same, covers-grant _ k.scope covered, stands)
              ]
      ]
