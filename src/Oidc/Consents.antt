-- ===== src/Oidc/Consents.antt =====
-- src/idp.rs: the table of consent grants. A query for the latest row takes the first one, since a
-- new row stands in front.
use janux.Common.{
  Bool, Bool-cases, In, In-any, List, Option, Text, [], any, ap, arith, false, find, if◌then◌else◌,
  inl, inr, map, none, not, refl, retain, retain-In, some, text_eq, text_eq_refl, true, ℕ, ◌&&◌,
  ◌∙◌, ◌∷◌, ◌≡◌,
}
use janux.Oidc.{AuthGrant}

-- The rows that a query for the live grants of a user and a client selects.
abbrev pub live_for : Text → Text → AuthGrant → Bool
live_for user_id client_id g =
    text_eq g.user_id user_id && text_eq g.client_id client_id && not g.revoked

unfoldable pub auth_grant_all_for_user : List AuthGrant → Text → List AuthGrant
auth_grant_all_for_user grants user_id =
    retain (λ g. text_eq g.user_id user_id && not g.revoked) grants

unfoldable pub auth_grant_find : List AuthGrant → Text → Text → Option AuthGrant
auth_grant_find grants user_id client_id = find (live_for user_id client_id) grants

-- `update_by_jti(jti).revoked(true)`
unfoldable pub auth_grant_revoke_jti : List AuthGrant → Text → List AuthGrant
auth_grant_revoke_jti grants jti =
    map (λ (g : AuthGrant). if text_eq g.jti jti then record g { revoked = true } else g) grants

-- The loop over the selected grants.
unfoldable pub revoke_each : List AuthGrant → List AuthGrant → List AuthGrant
unfolding auth_grant_revoke_jti
revoke_each [] grants = grants
revoke_each (g ∷ selected) grants = revoke_each selected (auth_grant_revoke_jti grants g.jti)

unfoldable pub auth_grant_revoke_for : List AuthGrant → Text → Text → List AuthGrant
auth_grant_revoke_for grants user_id client_id =
    revoke_each (retain (live_for user_id client_id) grants) grants

unfoldable pub auth_grant_by_code_hash : List AuthGrant → Text → Option AuthGrant
auth_grant_by_code_hash grants code_hash = find (λ g. text_eq g.code_hash code_hash) grants

-- The insert: `jti` is the table's primary key, so none is a duplicate.
unfoldable pub auth_grant_create :
    List AuthGrant → Text → Text → Text → Text → Text → ℕ → Option (List AuthGrant)
auth_grant_create grants jti client_id user_id scope code_hash expires_at =
    if any (λ g. text_eq g.jti jti) grants
    then none
    else some (
        record {
          jti = jti;
          client_id = client_id;
          user_id = user_id;
          scope = scope;
          code_hash = code_hash;
          expires_at = expires_at;
          revoked = false;
        }
        ∷ grants)

-- A live row after a row was revoked was there before, and is another row.
revoke_jti-live :
    (user_id client_id jti : Text) (grants : List AuthGrant) (g : AuthGrant)
    → In g (auth_grant_revoke_jti grants jti)
    → live_for user_id client_id g ≡ true
    → In g grants × (text_eq g.jti jti ≡ false)
unfolding auth_grant_revoke_jti
revoke_jti-live user_id client_id jti [] g i h = absurd i
revoke_jti-live user_id client_id jti (x ∷ grants) g (inr i) h =
    let (j, ne) = revoke_jti-live user_id client_id jti grants g i h in (inr j, ne)
revoke_jti-live user_id client_id jti (x ∷ grants) g (inl e) h =
    elim (Bool-cases (text_eq x.jti jti)) [
      | inl same ↦
          let dead : g.revoked ≡ true = ap (λ y. y.revoked) e ∙ rw same refl in
          absurd (ground (arith, dead, h))
      | inr other ↦
          let e' : g ≡ x = e ∙ rw other refl in (inl e', ap (λ y. text_eq y.jti jti) e' ∙ other)
    ]

revoke_each-live :
    (user_id client_id : Text) (selected grants : List AuthGrant) (g : AuthGrant)
    → In g (revoke_each selected grants)
    → live_for user_id client_id g ≡ true
    → In g grants × (any (λ x. text_eq g.jti x.jti) selected ≡ false)
unfolding revoke_each
revoke_each-live user_id client_id [] grants g i h = (i, refl)
revoke_each-live user_id client_id (x ∷ selected) grants g i h =
    let (j, rest) =
      revoke_each-live user_id client_id selected (auth_grant_revoke_jti grants x.jti) g i h in
    let (k, ne) = revoke_jti-live user_id client_id x.jti grants g j h in (k, rw (ne, rest) refl)

-- After the user's grants for a client were revoked, none of them is live.
revoke_for-none :
    (user_id client_id : Text) (grants : List AuthGrant) (g : AuthGrant)
    → In g (auth_grant_revoke_for grants user_id client_id)
    → live_for user_id client_id g ≡ false
unfolding auth_grant_revoke_for
revoke_for-none user_id client_id grants g i = elim (Bool-cases (live_for user_id client_id g)) [
  | inr h ↦ h
  | inl h ↦
      let selected = retain (live_for user_id client_id) grants in
      let (j, free) = revoke_each-live user_id client_id selected grants g i h in
      let found =
        In-any (λ x. text_eq g.jti x.jti) g selected
          (retain-In (live_for user_id client_id) g grants j h) (text_eq_refl g.jti) in
      absurd (ground (arith, free, found))
]

retain-none :
    {A : Type 0} (p : A → Bool) (xs : List A) → ((x : A) → In x xs → p x ≡ false) → retain p xs ≡ []
retain-none p [] h = refl
retain-none p (x ∷ xs) h = rw (h x (inl refl)) (retain-none p xs (λ y i. h y (inr i)))

-- A consent that replaces the ones before, as an approval and an accepted consent do: when the new
-- grant is recorded, it is the only live one of the user and the client, and the one a query finds.
pub consent-replaced :
    (grants grants' : List AuthGrant) (jti client_id user_id scope code_hash : Text)
    (expires_at : ℕ)
    → auth_grant_create
        (auth_grant_revoke_for grants user_id client_id)
        jti
        client_id
        user_id
        scope
        code_hash
        expires_at
      ≡ some grants'
    → (g : AuthGrant) × (auth_grant_find grants' user_id client_id ≡ some g)
      × (retain (live_for user_id client_id) grants' ≡ g ∷ [])
      × (g.jti ≡ jti)
      × (g.scope ≡ scope)
unfolding auth_grant_create auth_grant_find
consent-replaced grants grants' jti client_id user_id scope code_hash expires_at e =
    let rest = auth_grant_revoke_for grants user_id client_id in
    let g : AuthGrant = record {
      jti = jti;
      client_id = client_id;
      user_id = user_id;
      scope = scope;
      code_hash = code_hash;
      expires_at = expires_at;
      revoked = false;
    } in
    elim (Bool-cases (any (λ x. text_eq x.jti jti) rest)) [
      | inl taken ↦ absurd (ground (arith, rw taken at e))
      | inr fresh ↦
          let same : grants' ≡ g ∷ rest = let k = rw fresh at e in cc in
          let none_left =
            retain-none (live_for user_id client_id) rest
              (revoke_for-none user_id client_id grants) in
          rw (same, text_eq_refl user_id, text_eq_refl client_id)
            (g, refl, ap (λ (xs : List AuthGrant). g ∷ xs) none_left, refl, refl)
    ]
