-- ===== src/Oidc/Exchange/Codes.antt =====
-- An authorization code of src/oidc.rs is good for one exchange, and a code with a challenge for a
-- client that knows its verifier.
use janux.Common.{
  Bool-cases, List, Option, Option-cases, Text, [], ap, arith, inl, inr, is_empty, lookup, none,
  refl, some, sym, text_eq_refl, ◌∙◌, ◌∷◌, ◌≡◌, ◌≢◌, ◌⊎◌,
}
use janux.Oidc.Consents.{auth_grant_by_code_hash}
use janux.Oidc.Issue.{Grant, sign_tokens}
use janux.Ephem.{lookup-drop_entry, get_one_shot, drop_entry}
use janux.Oidc.{OAuth2Client, TokenResponse, TokenReply, issued}
use janux.Oidc.Codes.{Services, Flow, Call, TokenRequest, CodeEntry, code_key, pkce_key}
use janux.Oidc.Exchange.{
  handle_auth_code, exchange_entry, answer, exchange_checked, exchange_code, replayed_code,
  pkce_met, replayed_grant, redirect_fault, exchange_grant, entry_fault,
}
use janux.Oidc.Exchange.Single.{handle_auth_code-Exchanged}
use janux.Tenant.{Tenant}

module _ (s : Services) where
  answer-codes :
      (t : Tenant) (q : Call) (f : Flow) (g : Grant)
      → (answer s t q f g).0.auth_codes ≡ f.auth_codes
  unfolding answer
  answer-codes t q f g = elim (Bool-cases q.has_key) [
    | inr h ↦ rw (h, answer) refl
    | inl h ↦ elim (Option-cases (sign_tokens s.sign g)) [
      | inl failing ↦ rw (h, failing, answer) refl
      | inr (r, signed_all) ↦ rw (h, signed_all, answer) refl
    ]
  ]

  exchange_checked-codes :
      (t : Tenant) (q : Call) (f : Flow) (client : OAuth2Client) (params : TokenRequest)
      (code : Text) (e : CodeEntry)
      → (exchange_checked s t q f client params code e).0.auth_codes ≡ f.auth_codes
  unfolding exchange_checked get_one_shot
  exchange_checked-codes t q f client params code e =
      elim (Bool-cases (
        pkce_met s t q e.code_challenge_method (lookup (pkce_key code) f.pkce)
          params.code_verifier)) [
            | inr unmet ↦ rw (unmet, exchange_checked) refl
            | inl met ↦
                rw (met, exchange_checked)
                  (answer-codes t q _ (exchange_grant s t q client params e))
          ]

  exchange_entry-codes :
      (t : Tenant) (q : Call) (f : Flow) (client : OAuth2Client) (params : TokenRequest)
      (code : Text) (entry : Option CodeEntry)
      → (exchange_entry s t q f client params code entry).0.auth_codes ≡ f.auth_codes
  unfolding exchange_entry replayed_code replayed_grant
  exchange_entry-codes t q f client params code none =
      elim (Option-cases (auth_grant_by_code_hash f.grants (s.code_hash code))) [
        | inl unknown ↦ rw (unknown, exchange_entry, replayed_code) refl
        | inr (grant, known) ↦ rw (known, exchange_entry, replayed_code) refl
      ]
  exchange_entry-codes t q f client params code (some e) =
      elim (Option-cases (entry_fault s t q client params e)) [
        | inr (fault, bad) ↦ rw (bad, exchange_entry) refl
        | inl good ↦ rw (good, exchange_entry) (exchange_checked-codes t q f client params code e)
      ]

  -- The request takes the code it presents out of the cache, and no other one.
  handle_auth_code-codes :
      (t : Tenant) (q : Call) (f : Flow) (registered : List Text) (client : OAuth2Client)
      (params : TokenRequest)
      → ((handle_auth_code s t q f registered client params).0.auth_codes ≡ f.auth_codes)
        ⊎ ((code : Text) × (params.code ≡ some code)
            × ((handle_auth_code s t q f registered client params).0.auth_codes
                ≡ drop_entry (code_key code) f.auth_codes))
  unfolding handle_auth_code exchange_code get_one_shot
  handle_auth_code-codes t q f registered client params = elim (Option-cases params.code) [
    | inl absent ↦ inl (rw (absent, handle_auth_code) refl)
    | inr (code, given) ↦ elim (Bool-cases (is_empty code)) [
      | inl empty ↦ inl (rw (given, empty, handle_auth_code) refl)
      | inr full ↦ elim (Option-cases (redirect_fault registered params.redirect_uri)) [
        | inr (fault, bad) ↦ inl (rw (given, full, bad, handle_auth_code, exchange_code) refl)
        | inl good ↦ inr (
          code,
          given,
          rw (given, full, good, handle_auth_code, exchange_code)
              (exchange_entry-codes t q
                (record f { auth_codes = drop_entry (code_key code) f.auth_codes }) client params
                code (lookup (code_key code) f.auth_codes)),
        )
      ]
    ]
  ]

  handle_auth_code-stays_gone :
      (t : Tenant) (q : Call) (f : Flow) (registered : List Text) (client : OAuth2Client)
      (params : TokenRequest) (key : Text)
      → lookup key f.auth_codes ≡ none
      → lookup key (handle_auth_code s t q f registered client params).0.auth_codes ≡ none
  handle_auth_code-stays_gone t q f registered client params key gone =
      elim (handle_auth_code-codes t q f registered client params) [
        | inl same ↦ ap (λ m. lookup key m) same ∙ gone
        | inr (code, _, dropped) ↦
            ap (λ m. lookup key m) dropped
            ∙ lookup-drop_entry (code_key code) key f.auth_codes
            ∙ ground (arith, gone)
      ]

-- A request of the token endpoint for an authorization code.
pub record Exchange : Type 0 where
  pub tenant : Tenant
  pub call : Call
  pub registered : List Text
  pub client : OAuth2Client
  pub params : TokenRequest

abbrev pub exchange : Services → Flow → Exchange → Flow × TokenReply
exchange s f x = handle_auth_code s x.tenant x.call f x.registered x.client x.params

abbrev pub exchanges : Services → Flow → List Exchange → Flow
exchanges s f [] = f
exchanges s f (x ∷ xs) = exchanges s (exchange s f x).0 xs

exchanges-stay_gone :
    (s : Services) (xs : List Exchange) (f : Flow) (key : Text)
    → lookup key f.auth_codes ≡ none
    → lookup key (exchanges s f xs).auth_codes ≡ none
exchanges-stay_gone s [] f key gone = gone
exchanges-stay_gone s (x ∷ xs) f key gone =
    exchanges-stay_gone s xs (exchange s f x).0 key
      (handle_auth_code-stays_gone s x.tenant x.call f x.registered x.client x.params key gone)

-- An authorization code is good for one exchange: once it gave tokens, no later exchange of it does,
-- whatever other exchanges come in between.
pub exchange-once :
    (s : Services) (x y : Exchange) (between : List Exchange) (f f' g : Flow)
    (reply reply' : TokenResponse) (code : Text)
    → x.params.code ≡ some code
    → y.params.code ≡ some code
    → exchange s f x ≡ (f', issued reply)
    → exchange s (exchanges s f' between) y ≢ (g, issued reply')
exchange-once s x y between f f' g reply reply' code first second_time won again =
    let r =
      handle_auth_code-Exchanged s x.tenant x.call f x.registered x.client x.params f' reply won in
    let r' =
      handle_auth_code-Exchanged s y.tenant y.call (exchanges s f' between) y.registered y.client
        y.params g reply' again in
    let code1 : r.code ≡ code = let k = sym r.presented ∙ first in cc in
    let code2 : r'.code ≡ code = let k = sym r'.presented ∙ second_time in cc in
    let gone : lookup (code_key code) f'.auth_codes ≡ none =
      ap (λ m. lookup (code_key code) m) r.used
      ∙ lookup-drop_entry (code_key r.code) (code_key code) f.auth_codes
      ∙ rw (code1, text_eq_refl code) refl in
    let still = exchanges-stay_gone s between f' (code_key code) gone in
    let found =
      ap (λ c. lookup (code_key c) (exchanges s f' between).auth_codes) (sym code2) ∙ r'.parked in
    let k = sym still ∙ found in cc
