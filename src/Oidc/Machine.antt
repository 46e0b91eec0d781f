-- ===== src/Oidc/Machine.antt =====
-- src/oidc.rs: the client_credentials grant, whose tokens are for machines.
pub mod Confined
use janux.Common.{
  List, Option, Text, [], chars, contains, if◌then◌else◌, is_empty, join, none, not, retain, some,
  text_eq, trim, ℕ, ℤ, ◌*◌, ◌++◌, ◌∷◌,
}
use janux.Oidc.Clients.{get_scope}
use janux.Oidc.Scopes.{split_whitespace}
use janux.Policy.{JwtData}
use janux.Oidc.{
  OAuth2Client, Signing, machine_data, TokenError, invalid_client, invalid_scope, server_error,
  TokenReply, issued, refused, aud_from_client, clamped_token_lifetime_minutes, TokenResponse,
}
use janux.Oidc.Codes.{Services, Call}

unfoldable pub machine_scopes : List Text
machine_scopes = chars "scim" ∷ []

unfoldable pub roles_for_machine_scopes : List Text → List Text
roles_for_machine_scopes scopes = retain (λ s. contains s machine_scopes) scopes

-- The loop over the requested scopes with those taken so far; none for a scope that is not of the
-- grant or not registered.
unfoldable pub take_scopes : List Text → List Text → List Text → Option (List Text)
take_scopes [] registered taken = some taken
take_scopes (s ∷ requested) registered taken =
    let rest =
      take_scopes requested registered (if contains s taken then taken else taken ++ (s ∷ [])) in
    if not (contains s machine_scopes)
    then none
    else if not (contains s registered)
    then none
    else rest

abbrev pub default_scopes : List Text → List Text
default_scopes registered = retain (λ s. contains s machine_scopes) registered

-- The scopes that the request asks for, and the registered ones where it asks for none.
unfoldable pub effective_scopes : List Text → Option Text → Option (List Text)
unfolding take_scopes split_whitespace
effective_scopes registered none = some (default_scopes registered)
effective_scopes registered (some requested) =
    let trimmed = trim requested in
    if is_empty trimmed
    then some (default_scopes registered)
    else take_scopes (split_whitespace trimmed) registered []

abbrev pub client_credentials_token_lifetime_minutes : ℕ
client_credentials_token_lifetime_minutes = 90 * 24 * 60

-- The claims of a machine token.
unfoldable pub machine_signing : Call → OAuth2Client → List Text → ℕ → Signing
machine_signing q client roles minutes = record {
  issuer = q.issuer;
  sub = client.uuid;
  payload = machine_data (record {
    user = client.uuid;
    username = chars "client:" ++ client.id;
    domain = q.domain;
    mfa = [];
    roles = roles;
    typ = none;
  });
  minutes = minutes;
  client_id = aud_from_client client q.domain;
  nonce = none;
  amr = none;
  acr = none;
  access_token = none;
  auth_time = none;
}

module _ (s : Services) (q : Call) where
  unfoldable pub mint_machine : OAuth2Client → List Text → Option ℤ → TokenReply
  unfolding clamped_token_lifetime_minutes machine_signing roles_for_machine_scopes
  mint_machine client effective lifetime =
      let minutes =
        clamped_token_lifetime_minutes lifetime client_credentials_token_lifetime_minutes in
      let token = s.sign (machine_signing q client (roles_for_machine_scopes effective) minutes) in
      elim token [
        | none ↦ refused server_error
        | some access_token ↦ issued (record {
          access_token = access_token;
          expires_in = minutes * 60;
          scope = some (join b' ' effective);
          id_token = none;
          refresh_token = none;
        })
      ]

  unfoldable pub handle_client_credentials : OAuth2Client → Option Text → Option ℤ → TokenReply
  unfolding effective_scopes mint_machine get_scope roles_for_machine_scopes
  handle_client_credentials client requested_scope lifetime =
      if text_eq client.token_endpoint_auth_method (chars "none")
      then refused invalid_client
      else (elim (effective_scopes (get_scope client) requested_scope) [
        | none ↦ refused invalid_scope
        | some effective ↦
            if is_empty (roles_for_machine_scopes effective)
            then refused invalid_scope
            else if not q.has_key
            then refused server_error
            else mint_machine client effective lifetime
      ])
