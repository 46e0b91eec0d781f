-- ===== src/Oidc/Device/Ceremony.antt =====
-- The life of one device code in src/oidc.rs, as an abstract machine, and the calls of the cache
-- that implement it. The calls of several polls and decisions interleave; an approval makes two,
-- with its work on the tables in between.
use janux.Common.{
  Bool-cases, List, Option, Text, [], ap, inl, inr, lookup, ltb, none, refl, some, sym, text_eq,
  text_eq_refl, ℕ, ◌++◌, ◌∙◌, ◌∷◌, ◌≡◌, ◌⊎◌,
}
use janux.Ephem.{Entries, get_mut, drop_entry, get}
use janux.Oidc.Device.{
  Poll, Claimed, Approval, DeviceEntry, DeviceStatus, approved_poll, pending, ready, approving,
  poll_entry, claim_entry, approved, rollback_claim, commit_approval, deny_entry, poll_status,
  too_fast, or_default,
}
use janux.Oidc.Device.{
  DeviceStatus, pending, approving, approved, denied, consumed, DeviceEntry, Approval, Poll,
  approved_poll, Claimed, ready,
}
use janux.Ephem.{Entries, drop_entry, get_mut, lookup-put}
use janux.Ephem.OneShot.{get_mut-get}

-- Who approves: the user of the session, its factors and the time of its authentication.
pub record Approver : Type 0 where
  pub user_id : Text
  pub mfa : List Text
  pub auth_time : ℕ

-- What a device code promises.
pub data Phase : Type 0 where
  undecided closed : Phase
  claimed granted : Approver → Phase

-- The label of a move is the approver for whom tokens are minted.
pub data Move : Phase → Option Approver → Phase → Type 0 where
  stay : {p : Phase} → Move p none p
  claim : {a : Approver} → Move undecided none (claimed a)
  take_back : {a : Approver} → Move (claimed a) none undecided
  grant : {a : Approver} → Move (claimed a) none (granted a)
  deny : Move undecided none closed
  mint : {a : Approver} → Move (granted a) (some a) closed
  lose : {p : Phase} → Move p none closed

-- The entries, and the approvals that are between their first and their last call.
pub record Ceremony : Type 0 where
  pub codes : Entries DeviceEntry
  pub claims : List Approver

abbrev pub minted : Option Poll → Option Approval
minted (some (approved_poll approval)) = some approval
minted _ = none

abbrev pub add_claim : Option Claimed → Approver → List Approver → List Approver
add_claim (some (ready _ _ _)) a claims = a ∷ claims
add_claim _ a claims = claims

-- A call of the cache on the entry of the code `key`.
pub data Step (key : Text) : Ceremony → Option Approval → Ceremony → Type 0 where
  polls :
      {c : Ceremony} (client : Text) (now : ℕ)
      → Step key c
          (minted (get_mut c.codes key (poll_entry client now)).1)
          (record c { codes = (get_mut c.codes key (poll_entry client now)).0 })
  claims_code :
      {c : Ceremony} (a : Approver)
      → Step key c none (record {
        codes = (get_mut c.codes key claim_entry).0;
        claims = add_claim (get_mut c.codes key claim_entry).1 a c.claims;
      })
  rolls_back :
      {c : Ceremony} (a : Approver) (before rest : List Approver)
      → c.claims ≡ before ++ (a ∷ rest)
      → Step key c none
          (record { codes = (get_mut c.codes key rollback_claim).0; claims = before ++ rest })
  commits :
      {c : Ceremony} (a : Approver) (before rest : List Approver)
      → c.claims ≡ before ++ (a ∷ rest)
      → Step key c none (record {
        codes = (get_mut c.codes key (commit_approval a.user_id a.mfa a.auth_time)).0;
        claims = before ++ rest;
      })
  denies :
      {c : Ceremony} → Step key c none (record c { codes = (get_mut c.codes key deny_entry).0 })
  evicts : {c : Ceremony} → Step key c none (record c { codes = drop_entry key c.codes })

abbrev pub IsOver : DeviceStatus → Type 0
IsOver denied = Unit
IsOver consumed = Unit
IsOver _ = ⊥

-- The phase that a state is in. The scope of the request stays.
abbrev pub Models : Text → Text → Phase → Ceremony → Type 0
Models key scope undecided c =
    (e : DeviceEntry) × (lookup key c.codes ≡ some e)
    × (e.scope ≡ scope)
    × (e.status ≡ pending)
    × (c.claims ≡ [])
Models key scope (claimed a) c =
    (e : DeviceEntry) × (lookup key c.codes ≡ some e)
    × (e.scope ≡ scope)
    × (e.status ≡ approving)
    × (c.claims ≡ a ∷ [])
Models key scope (granted a) c =
    (e : DeviceEntry) × (lookup key c.codes ≡ some e)
    × (e.scope ≡ scope)
    × (e.status ≡ approved)
    × (e.user_id ≡ some a.user_id)
    × (e.mfa ≡ some a.mfa)
    × (e.auth_time ≡ some a.auth_time)
    × (c.claims ≡ [])
Models key scope closed c =
    (lookup key c.codes ≡ none)
    ⊎ ((e : DeviceEntry) × (lookup key c.codes ≡ some e) × IsOver e.status × (c.claims ≡ []))

-- One call of the cache, on an entry that is there and on one that is not.
pub get_mut-present {κ} :
    {R : Type κ} (m : Entries DeviceEntry) (key : Text) (f : DeviceEntry → DeviceEntry × R)
    (e : DeviceEntry)
    → lookup key m ≡ some e
    → (lookup key (get_mut m key f).0 ≡ some (f e).0) × ((get_mut m key f).1 ≡ some (f e).1)
unfolding get
get_mut-present m key f e found = elim (get_mut-get m key f) [
  | inl (gone, _) ↦ let k = sym gone ∙ found in cc
  | inr (v, there, run) ↦
      let same : v ≡ e = let k = sym there ∙ found in cc in
      (
        ap (λ r. lookup key r.0) run
            ∙ lookup-put key key (f v).0 m
            ∙ rw (text_eq_refl key, same) refl,
        ap (λ r. r.1) run ∙ ap (λ w. some (f w).1) same,
      )
]

pub get_mut-absent {κ} :
    {R : Type κ} (m : Entries DeviceEntry) (key : Text) (f : DeviceEntry → DeviceEntry × R)
    → lookup key m ≡ none
    → get_mut m key f ≡ (m, none)
unfolding get
get_mut-absent m key f gone = elim (get_mut-get m key f) [
  | inl (_, run) ↦ run
  | inr (v, there, run) ↦ let k = sym gone ∙ there in cc
]

-- What a poll may do to an entry: nothing that matters here, or the one step that mints.
abbrev pub Kept : DeviceEntry → DeviceEntry → Type 0
Kept e e' =
    (e'.status ≡ e.status)
    × (e'.scope ≡ e.scope)
    × (e'.user_id ≡ e.user_id)
    × (e'.mfa ≡ e.mfa)
    × (e'.auth_time ≡ e.auth_time)

abbrev pub Consumes : ℕ → DeviceEntry → DeviceEntry × Poll → Type 0
Consumes now e r =
    (e.status ≡ approved)
    × (r.0.status ≡ consumed)
    × (r.1
        ≡ approved_poll (record {
          user_id = or_default e.user_id [];
          scope = e.scope;
          mfa = or_default e.mfa [];
          auth_time = or_default e.auth_time now;
        }))

poll_status-cases :
    (status : DeviceStatus) (now : ℕ) (e : DeviceEntry)
    → e.status ≡ status
    → (Kept e (poll_status status now e).0 × (minted (some (poll_status status now e).1) ≡ none))
      ⊎ Consumes now e (poll_status status now e)
poll_status-cases pending now e h = inl ((refl, refl, refl, refl, refl), refl)
poll_status-cases approving now e h = inl ((refl, refl, refl, refl, refl), refl)
poll_status-cases denied now e h = inl ((refl, refl, refl, refl, refl), refl)
poll_status-cases consumed now e h = inl ((refl, refl, refl, refl, refl), refl)
poll_status-cases approved now e h = inr (h, refl, refl)

pub poll_entry-cases :
    (client : Text) (now : ℕ) (e : DeviceEntry)
    → (Kept e (poll_entry client now e).0 × (minted (some (poll_entry client now e).1) ≡ none))
      ⊎ Consumes now e (poll_entry client now e)
unfolding poll_entry
poll_entry-cases client now e = elim (Bool-cases (text_eq e.client_id client)) [
  | inr foreign ↦ rw (foreign, poll_entry) (inl ((refl, refl, refl, refl, refl), refl))
  | inl own ↦ elim (Bool-cases (ltb e.expires_at now)) [
    | inl late ↦ rw (own, late, poll_entry) (inl ((refl, refl, refl, refl, refl), refl))
    | inr early ↦ elim (Bool-cases (too_fast now e)) [
      | inl fast ↦ rw (own, early, fast, poll_entry) (inl ((refl, refl, refl, refl, refl), refl))
      | inr slow ↦
          rw (own, early, slow, poll_entry)
            (poll_status-cases e.status now (record e { last_polled_at = now }) refl)
    ]
  ]
]
