-- ===== src/Oidc/Revoke.antt =====
-- src/oidc.rs: the revocation endpoint (RFC 7009) and the introspection endpoint (RFC 7662). The
-- claims of a token are decoded without regard to its kind, so each part of them may be missing.
pub mod Guarded
pub mod Inactive
use janux.Common.{
  Bool, Option, Text, chars, false, if◌then◌else◌, is_empty, is_some, leb, lookup, ltb, none, not,
  some, text_eq, true, ℕ, ◌&&◌, ◌*◌, ◌||◌,
}
use janux.Tokens.{client_machine_marker, rejects_typ}
use janux.Ephem.{drop_entry}
use janux.Oidc.Issue.{refresh_family_end, refresh_family_marker, access_key}
use janux.Oidc.Exchange.{revoke_refresh_token_family}
use janux.Revocation.{is_valid, invalid_raw, Store, second}
use janux.Oidc.Clients.{Authenticated, strip_prefix, or_empty, unauthenticated, authenticated}
use janux.Oidc.{OAuth2Client, AccessEntry, aud_from_client}
use janux.Oidc.Codes.{Services, Flow, Call}
use janux.Tenant.{Tenant}

pub record AnyData : Type 0 where
  pub typ : Option Text
  pub client_id : Option Text
  pub username : Option Text
  pub scope : Option Text
  pub family : Option Text
  pub family_created_at : Option ℕ

pub record AnyClaim : Type 0 where
  pub iss : Text
  pub sub : Text
  pub aud : Text
  pub exp : ℕ
  pub iat : ℕ
  pub payload : AnyData

abbrev pub is_text : Option Text → Text → Bool
is_text none wanted = false
is_text (some s) wanted = text_eq s wanted

abbrev pub client_of_username : Option Text → Option Text
client_of_username none = none
client_of_username (some u) = strip_prefix (chars "client:") u

unfoldable pub machine_token_belongs_to : AnyData → Text → Text → Text → Bool
machine_token_belongs_to d aud expected_aud client_id =
    is_empty (or_empty d.client_id)
    && text_eq aud expected_aud
    && is_text (client_of_username d.username) client_id

-- Whether the token was issued to the client.
unfoldable pub belongs_to : AnyClaim → OAuth2Client → Text → Bool
unfolding machine_token_belongs_to
belongs_to c client domain =
    text_eq (or_empty c.payload.client_id) client.id
    || machine_token_belongs_to c.payload c.aud (aud_from_client client domain) client.id

abbrev pub is_refresh : AnyData → Bool
is_refresh d = is_text d.typ (chars "refresh")

pub data RevokeReply : Type 0 where
  malformed not_authenticated revoke_ok : RevokeReply

-- What introspection answers; none is `active: false`.
pub record Introspected : Type 0 where
  pub client_id : Text
  pub scope : Option Text
  pub sub : Text
  pub aud : Text
  pub iss : Text
  pub exp : ℕ
  pub iat : ℕ

pub data IntrospectReply : Type 0 where
  not_allowed : IntrospectReply
  answered : Option Introspected → IntrospectReply

-- `decode_any` checks the signature and the expiry.
module _ (s : Services) (t : Tenant) (q : Call) (decode_any : Text → ℕ → Option AnyClaim) where
  -- The marker of the family of a refresh token, or the cached entry of an access token.
  abbrev pub poison_kind : Flow → AnyClaim → Text → Option Text → Option ℕ → Flow
  poison_kind f c token (some family) (some created_at) = record f {
    store = revoke_refresh_token_family s t q f.store family (refresh_family_end created_at);
  }
  poison_kind f c token _ _ = f

  unfoldable pub revoke_kind : Flow → AnyClaim → Text → Flow
  unfolding revoke_refresh_token_family refresh_family_end
  revoke_kind f c token =
      if is_refresh c.payload
      then poison_kind f c token c.payload.family c.payload.family_created_at
      else record f { tokens = drop_entry (access_key token) f.tokens }

  -- The revocation of the token itself; its failure is only logged.
  unfoldable pub revoke_claim : Flow → OAuth2Client → AnyClaim → Text → Flow
  unfolding belongs_to revoke_kind invalid_raw
  revoke_claim f client c token =
      if not (text_eq c.iss q.issuer) || not (belongs_to c client q.domain)
      then f
      else (let f' = revoke_kind f c token in
          if ltb s.latest (c.exp * second) then f' else record f' {
            store =
                (invalid_raw s.digest s.latest f'.store token (c.exp * second) q.revoke_fails).0;
          })

  -- `revoke`, for a client that has authenticated or not.
  unfoldable pub revoke_for : Flow → Authenticated → Text → Flow × RevokeReply
  unfolding revoke_claim
  revoke_for f (unauthenticated fault) token = (f, not_authenticated)
  revoke_for f (authenticated client) token =
      if text_eq client.token_endpoint_auth_method (chars "none")
      then (f, not_authenticated)
      else (elim (decode_any token q.now) [
        | none ↦ (f, revoke_ok)
        | some c ↦ (revoke_claim f client c token, revoke_ok)
      ])

  unfoldable pub revoke : Flow → Authenticated → Text → Flow × RevokeReply
  unfolding revoke_for
  revoke f client token = if is_empty token then (f, malformed) else revoke_for f client token

  -- An access token that this process issued.
  unfoldable pub introspect_cached :
      Flow → OAuth2Client → Text → AccessEntry → Flow × IntrospectReply
  unfolding is_valid
  introspect_cached f client token e =
      if leb e.exp q.now || not (text_eq e.iss q.issuer) || not (text_eq e.client_id client.id)
      then (f, answered none)
      else (let (store, gone) = is_valid s.digest s.latest f.store token (q.now * second) in
          if gone then (record f { store = store }, answered none) else (
            record f { store = store },
            answered (
                some (record {
                  client_id = e.client_id;
                  scope = some e.scope;
                  sub = e.user_id;
                  aud = e.client_id;
                  iss = q.issuer;
                  exp = e.exp;
                  iat = e.iat;
                })),
          ))

  -- Whether the family of a refresh token has ended.
  abbrev pub family_dead : Store → Option Text → Option ℕ → Store × Bool
  family_dead store (some family) (some created_at) =
      let (store', poisoned) =
        is_valid s.digest s.latest store (refresh_family_marker family) (q.now * second) in
      (store', poisoned || leb (refresh_family_end created_at) q.now)
  family_dead store _ _ = (store, true)

  abbrev pub dead : Store → AnyClaim → Store × Bool
  dead store c =
      if is_refresh c.payload
      then family_dead store c.payload.family c.payload.family_created_at
      else (store, false)

  unfoldable pub introspect_claim : Flow → OAuth2Client → AnyClaim → Flow × IntrospectReply
  unfolding belongs_to is_valid refresh_family_marker refresh_family_end machine_token_belongs_to
  introspect_claim f client c =
      if not (belongs_to c client q.domain)
      then (f, answered none)
      else (let (store, ended) = dead f.store c in
          if ended then (record f { store = store }, answered none) else (
            record f { store = store },
            answered (
                some (record {
                  client_id =
                      if machine_token_belongs_to c.payload c.aud (aud_from_client client q.domain)
                        client.id
                      then client.id
                      else or_empty c.payload.client_id;
                  scope = c.payload.scope;
                  sub = c.sub;
                  aud = c.aud;
                  iss = c.iss;
                  exp = c.exp;
                  iat = c.iat;
                })),
          ))

  abbrev pub machine_revoked : Store → AnyClaim → Store × Bool
  machine_revoked store c =
      if is_some (client_of_username c.payload.username)
      then is_valid s.digest s.latest store (client_machine_marker c.sub) (q.now * second)
      else (store, false)

  -- `validate_token` for claims of any kind, without a policy and without the domain.
  unfoldable pub validate_any : Store → Text → Option Text → Store × Option AnyClaim
  unfolding is_valid client_machine_marker
  validate_any store token reject_typ =
      let (store', gone) = is_valid s.digest s.latest store token (q.now * second) in
      if gone then (store', none) else (elim (decode_any token q.now) [
        | none ↦ (store', none)
        | some c ↦
            if not (text_eq c.iss q.issuer)
            then (store', none)
            else (let (store'', dead_client) = machine_revoked store' c in
                if dead_client
                then (store'', none)
                else if rejects_typ reject_typ c.payload.typ
                then (store'', none)
                else (store'', some c))
      ])

  abbrev pub introspect_validated :
      Flow → OAuth2Client → Store × Option AnyClaim → Flow × IntrospectReply
  introspect_validated f client (store, none) = (record f { store = store }, answered none)
  introspect_validated f client (store, some c) =
      introspect_claim (record f { store = store }) client c

  unfoldable pub introspect_token : Flow → OAuth2Client → Text → Flow × IntrospectReply
  unfolding introspect_cached introspect_claim validate_any
  introspect_token f client token = elim (lookup (access_key token) f.tokens) [
    | some e ↦ introspect_cached f client token e
    | none ↦ introspect_validated f client (validate_any f.store token none)
  ]

  -- `introspect`, for a client that has authenticated or not.
  unfoldable pub introspect_for : Flow → Authenticated → Text → Flow × IntrospectReply
  unfolding introspect_token
  introspect_for f (unauthenticated fault) token = (f, not_allowed)
  introspect_for f (authenticated client) token =
      if text_eq client.token_endpoint_auth_method (chars "none")
      then (f, not_allowed)
      else introspect_token f client token

  unfoldable pub introspect : Flow → Authenticated → Text → Flow × IntrospectReply
  unfolding introspect_for
  introspect f client token =
      if is_empty token then (f, answered none) else introspect_for f client token
