-- ===== src/Oidc/Exchange/Pkce.antt =====
-- The PKCE check of src/oidc.rs.
use janux.Common.{
  Option, Text, ap, arith, lookup, none, refl, some, sym, text_eq_iff, true, ◌∙◌, ◌≡◌,
}
use janux.Oidc.ConstantTime.{Bytes, constant_time_eq-equal, constant_time_eq}
use janux.Oidc.Exchange.{pkce_met, verifier_met, challenge_met}
use janux.Oidc.{TokenResponse, issued}
use janux.Oidc.Codes.{Services, Flow, Call, CodeEntry, code_key, pkce_key}
use janux.Oidc.Exchange.Codes.{Exchange, exchange}
use janux.Oidc.Exchange.Single.{handle_auth_code-Exchanged}
use janux.Tenant.{Tenant}

module _ (s : Services) (t : Tenant) (q : Call) where
  pkce_met-verified :
      (method : Text) (challenge verifier : Option Text)
      → pkce_met s t q (some method) challenge verifier ≡ true
      → (c v : Text) × (challenge ≡ some c)
        × (verifier ≡ some v)
        × (constant_time_eq (s.s256 v) c ≡ true)
  unfolding pkce_met verifier_met challenge_met
  pkce_met-verified method challenge none e = cc
  pkce_met-verified method none (some v) e = absurd (ground (arith, e))
  pkce_met-verified method (some c) (some v) e = (c, v, refl, refl, ground (arith, e))

-- A code that was issued with a challenge gives tokens only to a request with a verifier whose S256
-- hash is that challenge. The hash and the challenge are texts of bytes.
pub exchange-verified :
    (s : Services) (x : Exchange) (f f' : Flow) (reply : TokenResponse) (code method : Text)
    (e : CodeEntry)
    → x.params.code ≡ some code
    → lookup (code_key code) f.auth_codes ≡ some e
    → e.code_challenge_method ≡ some method
    → ((v : Text) → Bytes (s.s256 v))
    → ((c : Text) → lookup (pkce_key code) f.pkce ≡ some c → Bytes c)
    → exchange s f x ≡ (f', issued reply)
    → (c v : Text) × (lookup (pkce_key code) f.pkce ≡ some c)
      × (x.params.code_verifier ≡ some v)
      × (s.s256 v ≡ c)
exchange-verified s x f f' reply code method e given parked with_challenge hashes challenges won =
    let r =
      handle_auth_code-Exchanged s x.tenant x.call f x.registered x.client x.params f' reply won in
    let same : r.code ≡ code = let k = sym r.presented ∙ given in cc in
    let entry : r.entry ≡ e =
      let k = sym r.parked ∙ ap (λ c. lookup (code_key c) f.auth_codes) same ∙ parked in cc in
    let met : pkce_met s x.tenant x.call (some method) (lookup (pkce_key code) f.pkce)
          x.params.code_verifier
        ≡ true =
      rw (← same, ← with_challenge, ← entry) r.challenge in
    let (c, v, found, presented, equal) =
      pkce_met-verified s x.tenant x.call method (lookup (pkce_key code) f.pkce)
        x.params.code_verifier met in
    let bytes = constant_time_eq-equal (s.s256 v) c (hashes v) (challenges c found) in
    (c, v, found, presented, (text_eq_iff (s.s256 v) c).0 (sym bytes ∙ equal))
