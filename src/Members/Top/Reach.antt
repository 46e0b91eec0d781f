-- ===== src/Members/Top/Reach.antt =====
-- The top of the role hierarchy under every sequence of the steps of Members/Steps.antt.
use janux.Common.{Text, arith, inl, inr, subst, sym, ◌≡◌}
use janux.Tenant.{Role, Tenant, jwt, ok, role}
use janux.Roles.Gate.{require_level_iff}
use janux.Roles.Created.{role_create_iff}
use janux.PolicyAdmin.Revoked.{role_delete-inv}
use janux.Members.Steps.{
  Step, role_created, role_deleted, granted, revoked, user_created, activated, deactivated,
  renamed_user, user_deleted, Steps, stop, step, user_activate-inv, user_deactivate-inv,
  user_delete-inv, user_rename-inv, user_add_role-inv, user_del_role-inv, user_create-inv,
}
use janux.Members.Top.{
  Capped, Kept, role-In, gate-below, require_below-not_top, require_above_user-not_top,
}
use janux.Members.Top.Effects.{
  add_role-Kept, drop_role-Kept, grant-Kept, revoke-Kept, add_user-Kept, update_user-Kept,
  delete_user_rows-Kept,
}

Kept-refl :
    (t : Tenant) (top : Text) (r : Role) → role t top ≡ ok r → Capped r.level t → Kept top r t t
Kept-refl t top r found capped = (found, capped, λ m _. (λ i. i, λ i. i), λ u m _ _ _ i. i)

Kept-trans :
    (t t' t'' : Tenant) (top : Text) (r : Role)
    → Kept top r t t'
    → Kept top r t' t''
    → Kept top r t t''
Kept-trans t t' t'' top r (_, _, m1, u1) (f, c, m2, u2) = (
  f,
  c,
  λ m h. (λ i. (m2 m h).0 ((m1 m h).0 i), λ i. (m1 m h).1 ((m2 m h).1 i)),
  λ u m i h e j. u2 u m ((m1 m h).0 i) h e (u1 u m i h e j),
)

Step-Kept :
    (low : Text → Text) (t t' : Tenant) (top : Text) (r : Role)
    → role t top ≡ ok r
    → Capped r.level t
    → Step low t t'
    → Kept top r t t'
Step-Kept low _ _ top r f c (role_created t t' claims name level q e) =
    let (_, fresh, _, above, _, same) = (role_create_iff t t' claims name level q).0 e in
    let gate = gate-below t claims level r.level c ((require_level_iff t claims level).1 above) in
    subst (Kept top r t) (sym same)
      (add_role-Kept t top r f c name level fresh (ground (arith, gate)))
Step-Kept low _ _ top r f c (role_deleted t t' claims name e) =
    let (q, g, _, gate, same) = role_delete-inv t t' (jwt claims) name e in
    subst (Kept top r t) (sym same)
      (drop_role-Kept t top r f c name (require_below-not_top t claims top name r q f c g gate))
Step-Kept low _ _ top r f c (granted t t' claims name role_name e) =
    let (u, q, _, g, gate, _, same) = user_add_role-inv low t t' (jwt claims) name role_name e in
    subst (Kept top r t) (sym same) (
      grant-Kept t top r f c u.id q.id (
        rw (role-In t role_name q g).1
          (require_below-not_top t claims top role_name r q f c g gate)))
Step-Kept low _ _ top r f c (revoked t t' claims name role_name e) =
    let (u, q, g, gate, same) = user_del_role-inv low t t' (jwt claims) name role_name e in
    subst (Kept top r t) (sym same) (
      revoke-Kept t top r f c u.id q.id (
        rw (role-In t role_name q g).1
          (require_below-not_top t claims top role_name r q f c g gate)))
Step-Kept low _ _ top r f c (user_created t t' fresh name u e) =
    let (_, _, _, same) = user_create-inv low t t' fresh name u e in
    subst (Kept top r t) (sym same) (add_user-Kept t top r f c u)
Step-Kept low _ _ top r f c (activated t t' claims name e) =
    let (u, gate, same) = user_activate-inv low t t' (jwt claims) name e in
    subst (Kept top r t) (sym same) (
      update_user-Kept t top r f c _ u.id
        (λ m. require_above_user-not_top t claims top u.id r m f c gate))
Step-Kept low _ _ top r f c (deactivated t t' claims name e) =
    let (u, gate, same) = user_deactivate-inv low t t' (jwt claims) name e in
    subst (Kept top r t) (sym same) (
      update_user-Kept t top r f c _ u.id
        (λ m. require_above_user-not_top t claims top u.id r m f c gate))
Step-Kept low _ _ top r f c (renamed_user t t' claims name new_name v e) =
    let (u, gate, same) = user_rename-inv low t t' (jwt claims) name new_name v e in
    elim same [
      | inl a ↦ subst (Kept top r t) (sym a) (Kept-refl t top r f c)
      | inr a ↦ subst (Kept top r t) (sym a) (
          update_user-Kept t top r f c _ u.id
            (λ m. require_above_user-not_top t claims top u.id r m f c gate))
    ]
Step-Kept low _ _ top r f c (user_deleted t t' claims name e) =
    let (u, gate, same) = user_delete-inv low t t' (jwt claims) name e in
    subst (Kept top r t) (sym same) (
      delete_user_rows-Kept t top r f c u.id
        (λ m. require_above_user-not_top t claims top u.id r m f c gate))

-- Where no name resolves to a role above the role named `top`, no sequence of administration steps
-- by tokens removes or changes that role, adds a role above it, grants it to anyone, takes it from
-- anyone, or removes or changes a holder's account.
pub Steps-Kept :
    (low : Text → Text) (t t' : Tenant) (top : Text) (r : Role)
    → role t top ≡ ok r
    → Capped r.level t
    → Steps low t t'
    → Kept top r t t'
Steps-Kept low _ _ top r f c (stop t) = Kept-refl t top r f c
Steps-Kept low _ _ top r f c (step t t1 t2 s rest) =
    let one = Step-Kept low t t1 top r f c s in
    let (f1, c1, _, _) = one in Kept-trans t t1 t2 top r one (Steps-Kept low t1 t2 top r f1 c1 rest)
