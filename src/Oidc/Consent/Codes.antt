-- ===== src/Oidc/Consent/Codes.antt =====
-- What an authorization code of src/oidc.rs has gone through.
use janux.Common.{
  Bool-cases, List, Option, Option-cases, Text, ap, chars, contains, inl, inr, lookup, none, refl,
  some, text_eq, text_eq_refl, true, ℕ, ◌∙◌, ◌≡◌, ◌≢◌,
}
use janux.Oidc.Consent.Admitted.{Admitted, check_request-Admitted}
use janux.Oidc.Consent.Bound.{
  StandsFor, Consented, issue_for-code, authorize_session-code, parked_hop-login,
}
use janux.Oidc.Consent.{
  authorize_flow, authorize_checked, authorize_anonymous, submit_parked, consent_submit,
  accept_entry, client_at,
}
use janux.Oidc.{OAuth2Client}
use janux.Oidc.Codes.{Services}
use janux.Oidc.Authorize.{
  PendingEntry, Session, AuthorizeRequest, callback_code, Authorizing, Draws, Checked, Checking,
  rejected_with, checked, prompts, check_request, usable_session, pending_key, pending_user_matches,
}
use janux.Oidc.DeviceLogin.{GrantFaults}
use janux.Ephem.{drop_entry, lookup-drop_entry, get_one_shot}

module _ (s : Services) (faults : GrantFaults) (draws : Draws) (now : ℕ)
    (to_lowercase : Text → Text) (clients : List OAuth2Client) (uris : List (Text × Text))
    (domain : Text) where
  authorize_anonymous-code :
      (a a' : Authorizing) (r : AuthorizeRequest) (k : Checked) (uri code : Text)
      → authorize_anonymous s faults draws now a r k ≢ (a', callback_code uri code)
  unfolding authorize_anonymous
  authorize_anonymous-code a a' r k uri code e =
      elim (Bool-cases (contains (chars "none") (prompts r.prompt))) [
        | inl silent ↦ let j = ap (λ x. x.1) (rw (silent, authorize_anonymous) at e) in cc
        | inr visible ↦
            parked_hop-login s faults draws now a a' _ draws.csrf_state uri code
              (rw (visible, authorize_anonymous) at e)
      ]

  authorize_checked-Consented :
      (a a' : Authorizing) (r : AuthorizeRequest) (session : Option Session) (uri code : Text)
      (c : Checking)
      → check_request to_lowercase clients uris domain r ≡ c
      → authorize_checked s faults draws now a r session c ≡ (a', callback_code uri code)
      → (k : Checked) × (user : Session) × Admitted to_lowercase clients uris domain r k
        × (usable_session r session now ≡ some user)
        × (uri ≡ k.callback_uri)
        × Consented a user.user k.client_id k.scope
        × StandsFor a' code user.user k.client_id k.scope
  unfolding authorize_checked
  authorize_checked-Consented a a' r session uri code (rejected_with fault) passed e =
      let j = ap (λ x. x.1) e in cc
  authorize_checked-Consented a a' r session uri code (checked k) passed e =
      elim (Option-cases (usable_session r session now)) [
        | inl nobody ↦
            absurd
              (authorize_anonymous-code a a' r k uri code (rw (nobody, authorize_checked) at e))
        | inr (user, usable) ↦
            let (same, consented, stands) =
              authorize_session-code s faults draws now a a' r k user uri code
                (rw (usable, authorize_checked) at e) in
            (
              k,
              user,
              check_request-Admitted to_lowercase clients uris domain r k passed,
              usable,
              same,
              consented,
              stands,
            )
      ]

  -- The authorization endpoint issues a code only with consent: the request is admitted, the session
  -- is the usable one, a live grant of its user for the client covers the scope, and the code that is
  -- sent to the registered callback stands for that user, client and scope.
  pub authorize_flow-Consented :
      (a a' : Authorizing) (r : AuthorizeRequest) (session : Option Session) (uri code : Text)
      → authorize_flow s faults draws now to_lowercase clients uris domain a r session
        ≡ (a', callback_code uri code)
      → (k : Checked) × (user : Session) × Admitted to_lowercase clients uris domain r k
        × (usable_session r session now ≡ some user)
        × (uri ≡ k.callback_uri)
        × Consented a user.user k.client_id k.scope
        × StandsFor a' code user.user k.client_id k.scope
  unfolding authorize_flow
  authorize_flow-Consented a a' r session uri code e =
      authorize_checked-Consented a a' r session uri code
        (check_request to_lowercase clients uris domain r) refl e

  submit_parked-code :
      (a a' : Authorizing) (session : Session) (decision uri code : Text) (o : Option PendingEntry)
      → submit_parked s faults draws now to_lowercase clients uris domain a session decision o
        ≡ (a', callback_code uri code)
      → (e : PendingEntry) × (o ≡ some e)
        × (pending_user_matches e session.user ≡ true)
        × (text_eq decision (chars "accept") ≡ true)
        × (uri ≡ e.callback_uri)
        × (a'.pending ≡ a.pending)
        × StandsFor a' code session.user e.client_id e.scope
  unfolding submit_parked accept_entry
  submit_parked-code a a' session decision uri code none h = let k = ap (λ x. x.1) h in cc
  submit_parked-code a a' session decision uri code (some e) h =
      elim (Bool-cases (pending_user_matches e session.user)) [
        | inr foreign ↦ let k = ap (λ x. x.1) (rw (foreign, submit_parked) at h) in cc
        | inl own ↦ elim (Bool-cases (text_eq decision (chars "accept"))) [
          | inr refusal ↦ let k = ap (λ x. x.1) (rw (own, refusal, submit_parked) at h) in cc
          | inl accepted ↦
              elim (Bool-cases (client_at s faults draws now clients domain e.client_id)) [
                | inr away ↦
                    let k = ap (λ x. x.1) (rw (own, accepted, away, submit_parked) at h) in cc
                | inl home ↦ elim (Bool-cases faults.revoke_fails) [
                  | inl failing ↦
                      let k =
                        ap (λ x. x.1)
                          (rw (own, accepted, home, failing, submit_parked, accept_entry) at h) in
                      cc
                  | inr works ↦
                      let (same, pending, stands) =
                        issue_for-code s faults draws now _ a' session e.client_id e.callback_uri
                          e.scope e.nonce e.code_challenge uri code
                          (rw (own, accepted, home, works, submit_parked, accept_entry) at h) in
                      (e, refl, own, accepted, same, pending, stands)
                ]
              ]
        ]
      ]

  -- The consent screen issues a code only for a request that is parked under the presented state and
  -- not for another user, when the decision is to accept; the code stands for the session's user and
  -- for the client and the scope that were parked, and the state is used up.
  pub consent_submit-bound :
      (a a' : Authorizing) (session : Session) (state decision uri code : Text)
      → consent_submit s faults draws now to_lowercase clients uris domain a
          (some session)
          state
          decision
        ≡ (a', callback_code uri code)
      → (e : PendingEntry) × (lookup (pending_key state) a.pending ≡ some e)
        × (pending_user_matches e session.user ≡ true)
        × (text_eq decision (chars "accept") ≡ true)
        × (uri ≡ e.callback_uri)
        × StandsFor a' code session.user e.client_id e.scope
        × (lookup (pending_key state) a'.pending ≡ none)
  unfolding consent_submit get_one_shot
  consent_submit-bound a a' session state decision uri code h =
      let (e, found, own, accepted, same, pending, stands) =
        submit_parked-code (record a { pending = drop_entry (pending_key state) a.pending }) a'
          session decision uri code (lookup (pending_key state) a.pending) h in
      (
        e,
        found,
        own,
        accepted,
        same,
        stands,
        ap (λ m. lookup (pending_key state) m) pending
            ∙ lookup-drop_entry (pending_key state) (pending_key state) a.pending
            ∙ rw (text_eq_refl state) refl,
      )
