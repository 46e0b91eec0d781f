-- ===== src/Oidc/Device/Refines.antt =====
-- The calls of the cache in src/oidc.rs implement the life of a device code.
use janux.Common.{
  List, Option, Text, [], ap, inl, inr, lookup, none, refl, some, split, subst, sym, text_eq_refl,
  ◌++◌, ◌∙◌, ◌∷◌, ◌≡◌, ◌≢◌,
}
use janux.Oidc.Device.Polls.{Simulates, gone-Simulates, poll-Simulates}
use janux.Oidc.Device.{
  DeviceStatus, pending, approving, approved, denied, consumed, DeviceEntry, Approval, ready,
  already, claim_entry, claim_status, deny_status, rollback_claim, deny_entry, commit_approval,
}
use janux.Oidc.Device.Ceremony.{
  Phase, undecided, closed, claimed, granted, stay, claim, take_back, grant, deny, Step, polls,
  claims_code, rolls_back, commits, denies, evicts, Approver, Ceremony, Models, get_mut-present,
  IsOver, get_mut-absent, add_claim,
}
use janux.Ephem.{Entries, get_mut, lookup-drop_entry}

-- A decision finds the entry decided, and leaves it.
abbrev Undecidable : DeviceStatus → Type 0
Undecidable pending = ⊥
Undecidable _ = Unit

claim-lost :
    (status : DeviceStatus) (e : DeviceEntry)
    → Undecidable status
    → claim_status status e ≡ (e, already status)
claim-lost pending e h = absurd h
claim-lost approving e h = refl
claim-lost approved e h = refl
claim-lost denied e h = refl
claim-lost consumed e h = refl

deny-lost :
    (status : DeviceStatus) (e : DeviceEntry)
    → Undecidable status
    → deny_status status e ≡ (e, status)
deny-lost pending e h = absurd h
deny-lost approving e h = refl
deny-lost approved e h = refl
deny-lost denied e h = refl
deny-lost consumed e h = refl

over-Undecidable : (status : DeviceStatus) → IsOver status → Undecidable status
over-Undecidable pending h = h
over-Undecidable approving h = absurd h
over-Undecidable approved h = absurd h
over-Undecidable denied h = tt
over-Undecidable consumed h = tt

nil-split : {A : Type 0} (a : A) (before rest : List A) → [] ≢ before ++ (a ∷ rest)
nil-split a [] rest e = cc
nil-split a (b ∷ before) rest e = cc

single-split :
    {A : Type 0} (a b : A) (before rest : List A)
    → (b ∷ []) ≡ before ++ (a ∷ rest)
    → (b ≡ a) × (before ++ rest ≡ [])
single-split a b [] rest e = (cc, cc)
single-split a b (c ∷ before) rest e =
    let k : [] ≡ before ++ (a ∷ rest) = cc in absurd (nil-split a before rest k)

module _ (key scope : Text) where
  -- A call that leaves the entry of a phase leaves the phase.
  same-phase :
      (p : Phase) (c : Ceremony) (codes : Entries DeviceEntry) (claims : List Approver)
      → lookup key codes ≡ lookup key c.codes
      → claims ≡ c.claims
      → Models key scope p c
      → Simulates key scope p none (record { codes = codes; claims = claims })
  same-phase undecided c codes claims same kept (e, found, in_scope, status, idle) =
      (undecided, none, stay, (e, same ∙ found, in_scope, status, kept ∙ idle), refl)
  same-phase (claimed a) c codes claims same kept (e, found, in_scope, status, busy) =
      (claimed a, none, stay, (e, same ∙ found, in_scope, status, kept ∙ busy), refl)
  same-phase (granted a) c codes claims same kept
        (e, found, in_scope, status, us, mf, at_time, idle) =
      (
        granted a,
        none,
        stay,
        (e, same ∙ found, in_scope, status, us, mf, at_time, kept ∙ idle),
        refl,
      )
  same-phase closed c codes claims same kept (inl gone) =
      (closed, none, stay, inl (same ∙ gone), refl)
  same-phase closed c codes claims same kept (inr (e, found, over, idle)) =
      (closed, none, stay, inr (e, same ∙ found, over, kept ∙ idle), refl)

  claim-fails :
      (c : Ceremony) (p : Phase) (a : Approver) (e : DeviceEntry)
      → Models key scope p c
      → lookup key c.codes ≡ some e
      → Undecidable e.status
      → Simulates key scope p none (record {
        codes = (get_mut c.codes key claim_entry).0;
        claims = add_claim (get_mut c.codes key claim_entry).1 a c.claims;
      })
  unfolding claim_entry
  claim-fails c p a e models found taken =
      let (found', result) = get_mut-present c.codes key claim_entry e found in
      let lost = claim-lost e.status e taken in
      same-phase p c _ _ (found' ∙ ap (λ r. some r.0) lost ∙ sym found)
        (ap (λ r. add_claim r a c.claims) (result ∙ ap (λ r. some r.1) lost)) models

  claim-Simulates :
      (c : Ceremony) (p : Phase) (a : Approver)
      → Models key scope p c
      → Simulates key scope p none (record {
        codes = (get_mut c.codes key claim_entry).0;
        claims = add_claim (get_mut c.codes key claim_entry).1 a c.claims;
      })
  unfolding claim_entry
  claim-Simulates c undecided a (e, found, in_scope, status, idle) =
      let (found', result) = get_mut-present c.codes key claim_entry e found in
      let won : claim_entry e
          ≡ (record e { status = approving }, ready e.client_id e.scope e.expires_at) =
        rw (status, claim_entry) refl in
      (
        claimed a,
        none,
        claim,
        (
          record e { status = approving },
          found' ∙ ap (λ r. some r.0) won,
          in_scope,
          refl,
          ap (λ r. add_claim r a c.claims) (result ∙ ap (λ r. some r.1) won)
              ∙ ap (λ (others : List Approver). a ∷ others) idle,
        ),
        refl,
      )
  claim-Simulates c (claimed b) a (e, found, in_scope, status, busy) =
      claim-fails c (claimed b) a e (e, found, in_scope, status, busy) found
        (subst Undecidable (sym status) tt)
  claim-Simulates c (granted b) a (e, found, in_scope, status, us, mf, at_time, idle) =
      claim-fails c (granted b) a e (e, found, in_scope, status, us, mf, at_time, idle) found
        (subst Undecidable (sym status) tt)
  claim-Simulates c closed a (inl gone) =
      let same = get_mut-absent c.codes key claim_entry gone in
      gone-Simulates key scope closed _ (ap (λ r. lookup key r.0) same ∙ gone)
  claim-Simulates c closed a (inr (e, found, over, idle)) =
      claim-fails c closed a e (inr (e, found, over, idle)) found (over-Undecidable e.status over)

  deny-fails :
      (c : Ceremony) (p : Phase) (e : DeviceEntry)
      → Models key scope p c
      → lookup key c.codes ≡ some e
      → Undecidable e.status
      → Simulates key scope p none (record c { codes = (get_mut c.codes key deny_entry).0 })
  unfolding deny_entry
  deny-fails c p e models found taken =
      let (found', result) = get_mut-present c.codes key deny_entry e found in
      let lost = deny-lost e.status e taken in
      same-phase p c _ c.claims (found' ∙ ap (λ r. some r.0) lost ∙ sym found) refl models

  deny-Simulates :
      (c : Ceremony) (p : Phase)
      → Models key scope p c
      → Simulates key scope p none (record c { codes = (get_mut c.codes key deny_entry).0 })
  unfolding deny_entry
  deny-Simulates c undecided (e, found, in_scope, status, idle) =
      let (found', result) = get_mut-present c.codes key deny_entry e found in
      let won : deny_entry e ≡ (record e { status = denied; user_id = none }, denied) =
        rw (status, deny_entry) refl in
      (
        closed,
        none,
        deny,
        inr (
          record e { status = denied; user_id = none },
          found' ∙ ap (λ r. some r.0) won,
          tt,
          idle,
        ),
        refl,
      )
  deny-Simulates c (claimed b) (e, found, in_scope, status, busy) =
      deny-fails c (claimed b) e (e, found, in_scope, status, busy) found
        (subst Undecidable (sym status) tt)
  deny-Simulates c (granted b) (e, found, in_scope, status, us, mf, at_time, idle) =
      deny-fails c (granted b) e (e, found, in_scope, status, us, mf, at_time, idle) found
        (subst Undecidable (sym status) tt)
  deny-Simulates c closed (inl gone) =
      let same = get_mut-absent c.codes key deny_entry gone in
      gone-Simulates key scope closed _ (ap (λ r. lookup key r.0) same ∙ gone)
  deny-Simulates c closed (inr (e, found, over, idle)) =
      deny-fails c closed e (inr (e, found, over, idle)) found (over-Undecidable e.status over)

  -- The last call of an approval, whether it fails or grants.
  finish-Simulates :
      (c : Ceremony) (p : Phase) (a : Approver) (before rest : List Approver)
      (f : DeviceEntry → DeviceEntry × Unit {0})
      → c.claims ≡ before ++ (a ∷ rest)
      → ((e : DeviceEntry)
          → e.scope ≡ scope
          → e.status ≡ approving
          → lookup key (get_mut c.codes key f).0 ≡ some (f e).0
          → before ++ rest ≡ []
          → Simulates key scope
              (claimed a)
              none
              (record { codes = (get_mut c.codes key f).0; claims = before ++ rest }))
      → Models key scope p c
      → Simulates key scope p none
          (record { codes = (get_mut c.codes key f).0; claims = before ++ rest })
  finish-Simulates c undecided a before rest f split finish (e, found, in_scope, status, idle) =
      absurd (nil-split a before rest (sym idle ∙ split))
  finish-Simulates c (claimed b) a before rest f split finish (e, found, in_scope, status, busy) =
      let (found', result) = get_mut-present c.codes key f e found in
      let (same, idle) = single-split a b before rest (sym busy ∙ split) in
      subst
        (λ (x : Approver).
          Simulates key scope (claimed x) none
            (record { codes = (get_mut c.codes key f).0; claims = before ++ rest }))
        (sym same) (finish e in_scope status found' idle)
  finish-Simulates c (granted b) a before rest f split finish
        (e, found, in_scope, status, us, mf, at_time, idle) =
      absurd (nil-split a before rest (sym idle ∙ split))
  finish-Simulates c closed a before rest f split finish (inl gone) =
      let same = get_mut-absent c.codes key f gone in
      gone-Simulates key scope closed _ (ap (λ r. lookup key r.0) same ∙ gone)
  finish-Simulates c closed a before rest f split finish (inr (e, found, over, idle)) =
      absurd (nil-split a before rest (sym idle ∙ split))

  -- Every call of the cache on the entry of a device code implements a move of its life: the phase
  -- after the call is reached by a move with the approver for whom the call mints, if it mints.
  pub Step-refines :
      (p : Phase) (c c' : Ceremony) (o : Option Approval)
      → Models key scope p c
      → Step key c o c'
      → Simulates key scope p o c'
  unfolding rollback_claim commit_approval
  Step-refines p c c' o models (polls client now) = poll-Simulates key scope c p client now models
  Step-refines p c c' o models (claims_code a) = claim-Simulates c p a models
  Step-refines p c c' o models (rolls_back a before rest split) =
      finish-Simulates c p a before rest rollback_claim split
        (λ e in_scope status found idle. (
          undecided,
          none,
          take_back,
          (record e { status = pending }, found, in_scope, refl, idle),
          refl,
        ))
        models
  Step-refines p c c' o models (commits a before rest split) =
      finish-Simulates c p a before rest (commit_approval a.user_id a.mfa a.auth_time) split
        (λ e in_scope status found idle.
          (granted a, none, grant, (_, found, in_scope, refl, refl, refl, refl, idle), refl))
        models
  Step-refines p c c' o models denies = deny-Simulates c p models
  Step-refines p c c' o models evicts =
      gone-Simulates key scope p _ (lookup-drop_entry key key c.codes ∙ rw (text_eq_refl key) refl)
