-- ===== src/Tests.antt =====
-- Runs of the theorems at concrete inputs, on the data below: a tenant with three roles beside the
-- catalogue's root, its users, and the policies of one role.
pub mod Policies
pub mod Rows
pub mod Roles
pub mod Signups
pub mod Limits
pub mod Requests
pub mod Tokens
pub mod Clients
pub mod Codes
pub mod Consents
pub mod Devices
use janux.Common.{
  List, Text, [], chars, false, if◌then◌else◌, leb, map, none, pos, some, true, ◌&&◌, ◌+◌, ◌∷◌,
}
use janux.Policy.{Policy, JwtData, Request, HttpMethod, SourceResolver, TargetResolver}
use janux.Engine.{PolicyCache, RoleMap}
use janux.Tenant.{Role, User, UserRole, Tenant}

-- Lower case on the ASCII letters, in place of all of Unicode.
abbrev pub lower : Text → Text
lower s = map (λ c. if leb b'A' c && leb c b'Z' then c + 32 else c) s

abbrev pub root_role : Role
root_role = record { id = chars "root"; level = pos 100; builtin = true }

abbrev pub admin_role : Role
admin_role = record { id = chars "admin"; level = pos 80; builtin = true }

abbrev pub guest_role : Role
guest_role = record { id = chars "guest"; level = pos 20; builtin = true }

abbrev pub editor_role : Role
editor_role = record { id = chars "editor"; level = pos 50; builtin = false }

-- `GET /docs/{user}` for editors, on their own documents.
abbrev pub own_docs : Policy
own_docs = record {
  id = 7;
  domain_id = chars "a.io";
  action = some HttpMethod.get;
  resource = chars "/docs/{user}";
  role_id = chars "editor";
  source = SourceResolver.user;
  target = TargetResolver.from_path (chars "user");
  mfa = false;
  allowed = true;
}

abbrev pub table : List Policy
table = own_docs ∷ []

abbrev pub cache : PolicyCache
cache = (chars "a.io", (chars "editor", own_docs ∷ []) ∷ []) ∷ []

abbrev pub office : Tenant
office = record {
  roles = root_role ∷ admin_role ∷ guest_role ∷ editor_role ∷ [];
  users =
      record { id = chars "u1"; name = chars "ada"; active = true }
      ∷ record { id = chars "u2"; name = chars "bob"; active = true }
      ∷ [];
  user_roles =
      record { user_id = chars "u1"; role_id = chars "root" }
      ∷ record { user_id = chars "u2"; role_id = chars "editor" }
      ∷ [];
  policy_rows = table;
  policies = cache;
}

abbrev pub token : Text → Text → List Text → JwtData
token id name roles = record {
  user = id;
  username = name;
  domain = chars "a.io";
  mfa = [];
  roles = roles;
  typ = none;
}

abbrev pub ada : JwtData
ada = token (chars "u1") (chars "ada") (chars "root" ∷ [])

abbrev pub bob : JwtData
bob = token (chars "u2") (chars "bob") (chars "editor" ∷ [])

abbrev pub get_docs : Request
get_docs = record {
  act = HttpMethod.get;
  path = [] ∷ chars "docs" ∷ chars "u2" ∷ [];
  query = [];
  header = [];
}
