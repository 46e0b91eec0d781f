-- ===== src/Lib.antt =====
-- Janux: a model of the authorization core of the identity server, with its theorems.
--
-- The server keeps for each tenant tables of roles, users, memberships and policies, and a policy
-- cache in memory. Administration calls (src/role.rs, src/user.rs, src/policy.rs) change the tables
-- behind a gate on role levels and keep the cache in step; every request then asks the policy engine
-- (src/utils.rs, `validate_token`), which tries the cached rows of the token's roles one by one
-- (src/policy.rs, `Policy::can_access`), after checks on the token itself, of which the store of
-- revoked tokens (src/jwt.rs) is the first; refreshing a session (src/db.rs) revokes the old token in
-- it. Beside them stand the throttle and the lockout on the cache of short-lived values
-- (src/cache.rs), the pages of list endpoints, and the choice of a tenant domain from a request's
-- host, all in src/utils.rs. The OpenID Connect provider (src/oidc.rs, src/idp.rs) stands on them: it
-- asks a session's user for consent, records it as a grant, gives codes for it, and exchanges codes,
-- refresh tokens and device codes for tokens, with the revocation store as the memory of what was used
-- up.
--
-- Which file models what:
-- - Common and its children: Boolean tests, lists, texts as lists of code points, and signed integers.
-- - Policy (src/policy.rs, enums and JwtData of src/db.rs): one row against one request.
--   Policy/Segments has the templates of paths, Policy/Matching when a row applies.
-- - Engine (src/utils.rs): scan_roles, scan_policies and decide are the loops of validate_token.
--   Engine/Decision gives the verdict without the loops, Engine/Order its independence of the order
--   of roles, Engine/Mfa the signal to authenticate with MFA.
-- - Tenant (src/role.rs, src/user.rs): the tables, the callers and the errors.
-- - Roles (src/role.rs): the level gate and the calls on roles. Roles/Gate and Roles/Above say whom
--   the gates let through, Roles/Created what a token can create.
-- - Members (src/user.rs): the calls on users. Members/Steps makes the administration by tokens a step
--   relation, Members/Top follows the top of the hierarchy along it, Members/Signup is self-signup.
-- - PolicyAdmin (src/policy.rs): the policy table and its cache. PolicyAdmin/Cache has what the cache
--   holds after each change, Mirror and Kept the agreement with the table, Revoked deleted roles.
-- - Ephem (src/cache.rs): EphemCache; Ephem/OneShot its promises.
-- - Throttle (src/utils.rs): send_throttle_allows, record_verify_failure, verify_gate_allows.
--   Throttle/SendBudget and Throttle/Lockout bound what passes, Throttle/Backoff is the backoff.
-- - Paging (src/utils.rs): page_params, page_bounds, Page. Paging/Window and Paging/Walk.
-- - Hosts (src/utils.rs): split_port, resolve_host, domain_matches, validate_cookie_scope, with
--   Hosts/Ports, Hosts/Resolve and Hosts/Suffix.
-- - Revocation (src/jwt.rs): InvalidJwt, the store of revoked identifiers, and the events of its life.
--   Revocation/Deadline and Revocation/Lasting.
-- - Tokens (src/utils.rs, src/db.rs): validate_token for session payloads, with Tokens/Checks, and
--   Tokens/Rotation, refresh_jwt, with Tokens/Rotation/Once.
-- - Oidc (src/oidc.rs, src/idp.rs): clients, grants, claims and answers. Its children: Scopes;
--   ConstantTime (constant_time_eq); Factors (amr_values and acr_value of src/db.rs); Lifetimes
--   (clamped_token_lifetime_minutes of src/utils.rs); Clients (authenticate_client, with
--   Clients/Authentic); Consents (the table of grants); Issue (signing the tokens of an answer);
--   Codes (issue_authorization_code, with Codes/Issued); Exchange (handle_auth_code, with
--   Exchange/Single, Codes and Pkce); Refresh (handle_refresh, with Refresh/Rotated, Family and Once);
--   Machine (handle_client_credentials, with Machine/Confined); Device (the entry of a device code and
--   the calls of the cache on it), with Device/Ceremony, the abstract life of a code and the step
--   relation of the calls, Device/Polls and Device/Refines, that the calls implement it, and
--   Device/Once; DeviceLogin (device_authorization and device_login_approve); Endpoint (token);
--   Authorize (the checks of authorize_flow); Consent (the rest of it, authorize_resume,
--   consent_submit), with Consent/Bound, Admitted and Codes; Revoke (revoke and introspect), with
--   Revoke/Guarded and Revoke/Inactive.
-- - Tests: each theorem below at a concrete input.
--
-- How the code is rendered. A table is the list of its rows and a query does not fail. So a read of the
-- revocation table that fails, which src/jwt.rs counts as not revoked, and a failing read of a user's
-- roles, which src/role.rs counts as a user without a level, are left out. The writes of a self-signup
-- may fail (Members, `SignupFaults`), and so may those on the revocation table. The effects of one call
-- happen together. A hash set is the list of its members, a hash map the list of its entries
-- with at most one entry for a key; a loop over a hash set visits the list in its order, which the
-- theorems take as any. An i64 that is only compared is an integer without a bound; usize sums wrap or
-- saturate as written. Deleting a user takes the memberships along, as the ORM's cascade does. Times
-- are seconds, in the revocation store and the tokens nanoseconds, and an argument. Policies come without timestamps and relations.
--
-- Tokens are decoded and minted by a library: the claims behind a token, and the token minted from
-- claims, are functions given to the model, and so are the digest of the revocation store, the latest
-- time a timestamp holds, the parsing of user ids and the failures of the store's table.
--
-- In the provider, an entry of a cache is a record of the fields that its writer stores, so the fallbacks
-- for a missing field do not arise; the field `at_hash`, a digest that nothing reads back, is left out.
-- `Services` collects the parameters of its calls (digests, the S256 hash, parsing, signing, decoding),
-- `Call` what holds for one call: the clock, the names of the host, whether the domain has a key and
-- whether the calls on the revocation table fail. Argon2, base64 and percent decoding are arguments of
-- Clients, random draws and fresh identifiers of each call; a random code is drawn from a list, since
-- the loop that draws ends only with a code that is not in use. The latest grant is the first row. The
-- calls of the handlers on caches and tables follow one another within a handler, except in the device
-- grant, where Device/Ceremony lets the calls of several handlers interleave. Errors are the codes of
-- the protocol, without their texts.
--
-- Other parameters: the change of case over Unicode (`str::to_lowercase`), the ids that the database
-- gives, whether it accepts a new policy row, the registered domains, and whether forwarding headers are
-- trusted. moka, the store of the short-lived cache, runs the calls on one key one after another;
-- the bounds on throttle and lockout are for runs in which it drops no entry. A verify
-- handler asks the gate at its start and records a failure at its end, so Throttle/Lockout takes these
-- as two calls, between which those of other handlers run. The counters of the
-- lockout (u32) do not come near their bound, since each lock lasts at least 15 minutes.
--
-- Every function terminates by structural recursion, so there is no fuel but in the walk over pages,
-- where one request more than there are rows is enough, and in the decimal digits of a usize, of which
-- there are at most 20.
--
-- Not modelled: HTTP parsing and routing, the database layer, and of the provider discovery, userinfo,
-- the administration of clients, dynamic registration and logout; one-time codes, passkeys, social
-- login, SCIM, the audit log, keys, mail, the binaries and the front end.
pub mod Common
pub mod Policy
pub mod Engine
pub mod Tenant
pub mod Roles
pub mod Members
pub mod PolicyAdmin
pub mod Ephem
pub mod Throttle
pub mod Revocation
pub mod Tokens
pub mod Paging
pub mod Hosts
pub mod Oidc
pub mod Tests
