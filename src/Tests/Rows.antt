-- ===== src/Tests/Rows.antt =====
-- Runs of the theorems on the administration of policies.
use janux.Common.{
  In, Text, [], ap, arith, chars, false, if◌then◌else◌, inl, inr, refl, retain, some, sym, text_eq,
  true, ℕ, ◌↔◌, ◌∙◌, ◌∷◌, ◌≡◌,
}
use janux.Policy.{Policy, JwtData, Request, HttpMethod, SourceResolver, TargetResolver}
use janux.Engine.{decide}
use janux.Tenant.{Role, UserRole, Tenant, jwt, ok, err, not_found, role}
use janux.Roles.{
  role_delete, require_below, require_level, effective_level, level_of_names, remove_role_rows,
  drop_role,
}
use janux.PolicyAdmin.{
  all_policy_entries, load_into, push_role, push_policy, NewPolicy, row_of, policy_create,
  policy_delete, delete_rows, evict_role, evict_policy, stored_resource,
}
use janux.PolicyAdmin.Cache.{cached}
use janux.PolicyAdmin.Mirror.{
  filed, UniqueIds, IsMirrored, FreshId, loaded-IsMirrored, cached-all_policy_entries,
}
use janux.PolicyAdmin.Kept.{named, with_row, policy_delete-IsMirrored}
use janux.PolicyAdmin.Revoked.{role_delete-revokes}
use janux.Tests.{office, table, editor_role, ada}

loaded : office.policies ≡ all_policy_entries office.policy_rows
unfolding all_policy_entries load_into push_policy push_role
loaded = refl

one_row : UniqueIds office.policy_rows
one_row p q i j e = elim i [
  | inl a ↦ elim j [ inl b ↦ a ∙ sym b | inr k ↦ absurd k ]
  | inr k ↦ absurd k
]

mirrored : IsMirrored office
mirrored = loaded-IsMirrored office loaded one_row

cached-all_policy_entries_example :
    cached (all_policy_entries table) (chars "a.io") (chars "editor")
    ≡ retain (filed (chars "a.io") (chars "editor")) table
cached-all_policy_entries_example = cached-all_policy_entries table (chars "a.io") (chars "editor")

abbrev posting : NewPolicy
posting = record {
  domain = chars "a.io";
  action = some HttpMethod.post;
  resource = chars "/docs";
  role_name = chars "editor";
  source = SourceResolver.nothing;
  target = TargetResolver.nothing;
  mfa = false;
  allowed = true;
}

abbrev posting_row : Policy
posting_row = row_of 8 posting editor_role

created :
    policy_create (λ rows p. true) 8 office (jwt ada) posting
    ≡ ok (with_row office posting_row, posting_row)
unfolding policy_create role require_below require_level effective_level level_of_names
    stored_resource
created = refl

unused : FreshId 8 office.policy_rows
unused p i = elim i [ inl e ↦ λ h. absurd (seven (sym (ap (λ q. q.id) e) ∙ h)) | inr k ↦ absurd k ]
  where
    seven : ◌≡◌ {A = ℕ} 7 8 → ⊥
    seven h = omega arith

abbrev emptied : Tenant
emptied = record office { policy_rows = []; policies = (chars "a.io", []) ∷ [] }

deleted :
    policy_delete office
      (jwt ada)
      (chars "a.io")
      (chars "/docs/{user}")
      (some HttpMethod.get)
      (chars "editor")
    ≡ ok emptied
unfolding policy_delete role require_below require_level effective_level level_of_names
    stored_resource delete_rows evict_policy evict_role
deleted = refl

policy_delete-IsMirrored_example :
    IsMirrored emptied
    × ((r : Role) × (role office (chars "editor") ≡ ok r)
        × (require_below office (jwt ada) r ≡ ok tt)
        × ((p : Policy)
            → In p emptied.policy_rows ↔ (
                In p office.policy_rows
                × (named
                      (chars "a.io")
                      r.id
                      (stored_resource (chars "/docs/{user}"))
                      (some HttpMethod.get)
                      p
                    ≡ false))))
policy_delete-IsMirrored_example =
    policy_delete-IsMirrored office emptied (jwt ada) (chars "a.io") (chars "/docs/{user}")
      (some HttpMethod.get) (chars "editor") deleted mirrored

role_deleted :
    role_delete office (jwt ada) (chars "editor") ≡ ok (drop_role office (chars "editor"))
unfolding role_delete role require_below require_level effective_level level_of_names
    remove_role_rows
role_deleted = refl

abbrev without_editor : Tenant
without_editor = drop_role office (chars "editor")

role_delete-revokes_example :
    (role without_editor (chars "editor") ≡ err not_found)
    × ((d r : Text)
        → cached without_editor.policies d r
          ≡ (if text_eq (chars "editor") r then [] else cached office.policies d r))
    × ((m : UserRole)
        → In m without_editor.user_roles
          ↔ (In m office.user_roles × (text_eq m.role_id (chars "editor") ≡ false)))
    × ((low : Text → Text) (dom : Text) (claims : JwtData) (req : Request)
        → ((r : Text) → In r claims.roles → r ≡ chars "editor")
        → (decide low without_editor.policies dom claims req).can_access ≡ false)
role_delete-revokes_example =
    role_delete-revokes office without_editor (jwt ada) (chars "editor") role_deleted
