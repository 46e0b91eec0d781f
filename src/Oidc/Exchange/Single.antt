-- ===== src/Oidc/Exchange/Single.antt =====
-- What the exchange of an authorization code in src/oidc.rs does to the code.
use janux.Common.{
  Bool-cases, List, Option-cases, Text, ap, arith, false, inl, inr, is_empty, lookup, none, refl,
  some, sym, text_eq_iff, true, ◌∙◌, ◌≡◌, ◌≤◌,
}
use janux.Oidc.Issue.{Grant, sign_tokens}
use janux.Oidc.Consents.{auth_grant_by_code_hash}
use janux.Ephem.{get_one_shot, drop_entry}
use janux.Oidc.Exchange.{
  handle_auth_code, exchange_code, exchange_entry, replayed_code, redirect_fault, replayed_grant,
  answer, exchange_checked, entry_fault, pkce_met, exchange_grant,
}
use janux.Oidc.{
  AuthGrant, OAuth2Client, TokenResponse, issued, refused, invalid_grant, require_active_user,
}
use janux.Oidc.Codes.{Services, Flow, Call, TokenRequest, CodeEntry, code_key, pkce_key}
use janux.Tenant.{Tenant}

module _ (s : Services) (t : Tenant) (q : Call) (f : Flow) (registered : List Text)
    (client : OAuth2Client) (params : TokenRequest) where
  -- A code that is not in the cache, with a grant on record for it.
  pub handle_auth_code-gone :
      (code : Text) (grant : AuthGrant)
      → params.code ≡ some code
      → is_empty code ≡ false
      → redirect_fault registered params.redirect_uri ≡ none
      → lookup (code_key code) f.auth_codes ≡ none
      → auth_grant_by_code_hash f.grants (s.code_hash code) ≡ some grant
      → handle_auth_code s t q f registered client params ≡ (
        replayed_grant s t q
            (record f { auth_codes = drop_entry (code_key code) f.auth_codes })
            grant,
        refused invalid_grant,
      )
  unfolding handle_auth_code exchange_code get_one_shot exchange_entry replayed_code
  handle_auth_code-gone code grant has_code full good gone known =
      rw
        (
          has_code, full, good, gone, known, handle_auth_code, exchange_code, exchange_entry,
          replayed_code,
        )
        refl

  -- The code was in the cache, good, of this client and for this redirect URI; its user is active,
  -- the verifier answers its challenge, and the tokens are the ones it stands for.
  pub record Exchanged (f' : Flow) (reply : TokenResponse) : Type 0 where
    pub code : Text
    pub entry : CodeEntry
    pub presented : params.code ≡ some code
    pub parked : lookup (code_key code) f.auth_codes ≡ some entry
    pub own : entry.client_id ≡ client.id
    pub in_time : q.now ≤ entry.expires_at
    pub live : require_active_user s.parse_uuid t entry.user_id ≡ true
    pub challenge :
        pkce_met s t q entry.code_challenge_method
          (lookup (pkce_key code) f.pkce)
          params.code_verifier
        ≡ true
    pub tokens : sign_tokens s.sign (exchange_grant s t q client params entry) ≡ some reply
    pub used : f'.auth_codes ≡ drop_entry (code_key code) f.auth_codes

  answer-issued :
      (f1 f2 : Flow) (g : Grant) (reply : TokenResponse)
      → answer s t q f1 g ≡ (f2, issued reply)
      → (sign_tokens s.sign g ≡ some reply) × (f2.auth_codes ≡ f1.auth_codes)
  unfolding answer
  answer-issued f1 f2 g reply e = elim (Bool-cases q.has_key) [
    | inr h ↦ let k = ap (λ x. x.1) (rw (h, answer) at e) in cc
    | inl h ↦ elim (Option-cases (sign_tokens s.sign g)) [
      | inl failing ↦ let k = ap (λ x. x.1) (rw (h, failing, answer) at e) in cc
      | inr (r, signed_all) ↦
          let j = rw (h, signed_all, answer) at e in
          let same = ap (λ x. x.1) j in (signed_all ∙ cc, ap (λ x. x.0.auth_codes) (sym j))
    ]
  ]

  entry_fault-none :
      (e : CodeEntry)
      → entry_fault s t q client params e ≡ none
      → (e.client_id ≡ client.id)
        × (q.now ≤ e.expires_at)
        × (require_active_user s.parse_uuid t e.user_id ≡ true)
  unfolding entry_fault
  entry_fault-none e h = elim (Bool-cases (require_active_user s.parse_uuid t e.user_id)) [
    | inl live ↦
        ((text_eq_iff e.client_id client.id).0 (ground (arith, h)), ground (arith, h), live)
    | inr dead ↦ absurd (ground (arith, rw (dead, entry_fault) at h))
  ]

  exchange_entry-Exchanged :
      (f' : Flow) (code : Text) (reply : TokenResponse)
      → params.code ≡ some code
      → exchange_entry s t q
          (record f { auth_codes = drop_entry (code_key code) f.auth_codes })
          client
          params
          code
          (lookup (code_key code) f.auth_codes)
        ≡ (f', issued reply)
      → Exchanged f' reply
  unfolding exchange_entry exchange_checked get_one_shot
  exchange_entry-Exchanged f' code reply has_code e =
      elim (Option-cases (lookup (code_key code) f.auth_codes)) [
        | inl gone ↦ let k = ap (λ x. x.1) (rw (gone, exchange_entry) at e) in cc
        | inr (entry, parked) ↦ elim (Option-cases (entry_fault s t q client params entry)) [
          | inr (fault, bad) ↦ let k = ap (λ x. x.1) (rw (parked, bad, exchange_entry) at e) in cc
          | inl good ↦
              let (own, in_time, live) = entry_fault-none entry good in
              let met =
                pkce_met s t q entry.code_challenge_method (lookup (pkce_key code) f.pkce)
                  params.code_verifier in
              elim (Bool-cases met) [
                | inr unmet ↦
                    let k =
                      ap (λ x. x.1)
                        (rw (parked, good, unmet, exchange_entry, exchange_checked) at e) in
                    cc
                | inl challenge ↦
                    let (tokens, codes) =
                      answer-issued _ f' (exchange_grant s t q client params entry) reply
                        (rw (parked, good, challenge, exchange_entry, exchange_checked) at e) in
                    record {
                      code = code;
                      entry = entry;
                      presented = has_code;
                      parked = parked;
                      own = own;
                      in_time = in_time;
                      live = live;
                      challenge = challenge;
                      tokens = tokens;
                      used = codes;
                    }
              ]
        ]
      ]

  pub handle_auth_code-Exchanged :
      (f' : Flow) (reply : TokenResponse)
      → handle_auth_code s t q f registered client params ≡ (f', issued reply)
      → Exchanged f' reply
  unfolding handle_auth_code exchange_code get_one_shot
  handle_auth_code-Exchanged f' reply e = elim (Option-cases params.code) [
    | inl absent ↦ let k = ap (λ x. x.1) (rw (absent, handle_auth_code) at e) in cc
    | inr (code, given) ↦ elim (Bool-cases (is_empty code)) [
      | inl empty ↦ let k = ap (λ x. x.1) (rw (given, empty, handle_auth_code) at e) in cc
      | inr full ↦ elim (Option-cases (redirect_fault registered params.redirect_uri)) [
        | inr (fault, bad) ↦
            let k = ap (λ x. x.1) (rw (given, full, bad, handle_auth_code, exchange_code) at e) in
            cc
        | inl good ↦
            exchange_entry-Exchanged f' code reply given
              (rw (given, full, good, handle_auth_code, exchange_code) at e)
      ]
    ]
  ]
