-- ===== src/Oidc/Device/Once.antt =====
-- What a device code of src/oidc.rs is good for, however polls and decisions interleave.
use janux.Common.{
  List, Option, Text, [], ap, arith, false, length, lookup, ltb, none, refl, some, subst, sym,
  text_eq-ne, text_eq_refl, ℕ, ◌∙◌, ◌∷◌, ◌≡◌, ◌≢◌, ◌≤◌,
}
use janux.Oidc.Device.{
  pending, approving, approved, DeviceEntry, Approval, approved_poll, ready, too_fast, poll_entry,
  claim_entry, commit_approval, foreign_client,
}
use janux.Oidc.Device.Ceremony.{
  Phase, undecided, closed, claimed, granted, Move, stay, claim, take_back, grant, deny, mint, lose,
  Step, claims_code, commits, Approver, Ceremony, Models, get_mut-present, add_claim, minted,
}
use janux.Oidc.Device.Polls.{approval_of, approvals}
use janux.Oidc.Device.Refines.{Step-refines}
use janux.Ephem.{get_mut}

abbrev pub and_then {ℓ} : {A : Type ℓ} → Option A → List A → List A
and_then none rest = rest
and_then (some a) rest = a ∷ rest

-- Any number of calls, with the approvals that they mint for.
pub data Run (key : Text) : Ceremony → List Approval → Ceremony → Type 0 where
  done : {c : Ceremony} → Run key c [] c
  next :
      {c c' c'' : Ceremony} {o : Option Approval} (minted_later : List Approval)
      → Step key c o c'
      → Run key c' minted_later c''
      → Run key c (and_then o minted_later) c''

module _ (key scope : Text) where
  -- After its end a code mints nothing, before it at most once.
  abbrev Left : Phase → List Approval → Type 0
  Left closed minted = minted ≡ []
  Left _ minted = length minted ≤ 1

  Left-at_most : (p : Phase) (minted : List Approval) → Left p minted → length minted ≤ 1
  Left-at_most closed minted h = rw h (omega arith)
  Left-at_most undecided minted h = h
  Left-at_most (claimed a) minted h = h
  Left-at_most (granted a) minted h = h

  move-Left :
      (p p' : Phase) (a : Option Approver) (minted : List Approval)
      → Move p a p'
      → Left p' minted
      → Left p (and_then (approvals scope a) minted)
  move-Left p p' a minted stay h = h
  move-Left p p' a minted claim h = h
  move-Left p p' a minted take_back h = h
  move-Left p p' a minted grant h = h
  move-Left p p' a minted deny h = Left-at_most closed minted h
  move-Left p p' a minted mint h = rw h (omega arith)
  move-Left undecided p' a minted lose h = Left-at_most closed minted h
  move-Left (claimed b) p' a minted lose h = Left-at_most closed minted h
  move-Left (granted b) p' a minted lose h = Left-at_most closed minted h
  move-Left closed p' a minted lose h = h

  Run-Left :
      (p : Phase) (c c' : Ceremony) (minted : List Approval)
      → Models key scope p c
      → Run key c minted c'
      → Left p minted
  Run-Left undecided c c' minted models done = omega arith
  Run-Left (claimed a) c c' minted models done = omega arith
  Run-Left (granted a) c c' minted models done = omega arith
  Run-Left closed c c' minted models done = refl
  Run-Left p c c' minted models (next later step run) =
      let (p', a, move, models', label) = Step-refines key scope p c _ _ models step in
      subst (λ o. Left p (and_then o later)) (sym label)
        (move-Left p p' a later move (Run-Left p' _ c' later models' run))

  -- Tokens for a device code are minted at most once, in any interleaving of polls, approvals,
  -- failures, denials and evictions that starts from a pending entry with no approval in flight.
  pub device-once :
      (e : DeviceEntry) (c c' : Ceremony) (minted : List Approval)
      → lookup key c.codes ≡ some e
      → e.scope ≡ scope
      → e.status ≡ pending
      → c.claims ≡ []
      → Run key c minted c'
      → length minted ≤ 1
  device-once e c c' minted found in_scope status idle run =
      Run-Left undecided c c' minted (e, found, in_scope, status, idle) run

  -- A code that was denied or consumed, or that is gone, never mints.
  pub device-closed :
      (c c' : Ceremony) (minted : List Approval)
      → Models key scope closed c
      → Run key c minted c'
      → minted ≡ []
  device-closed c c' minted over run = Run-Left closed c c' minted over run

-- The entry after an approval, and what the client's next poll then gets.
poll_entry-approval :
    (e : DeviceEntry) (a : Approver) (now : ℕ)
    → now ≤ e.expires_at
    → too_fast now e ≡ false
    → (poll_entry e.client_id now (record e {
      status = approved;
      user_id = some a.user_id;
      mfa = some a.mfa;
      auth_time = some a.auth_time;
    })).1
      ≡ approved_poll (approval_of e.scope a)
unfolding poll_entry
poll_entry-approval e a now in_time slow =
    let early : ltb e.expires_at now ≡ false = ground (arith, in_time) in
    rw (text_eq_refl e.client_id, early, slow, poll_entry) refl

poll_entry-foreign :
    (other : Text) (now : ℕ) (e : DeviceEntry)
    → other ≢ e.client_id
    → (poll_entry other now e).1 ≡ foreign_client
unfolding poll_entry
poll_entry-foreign other now e ne =
    rw (text_eq-ne e.client_id other (λ h. ne (sym h)), poll_entry) refl

-- From a pending entry with no approval in flight there is for each user `a` a run in which nothing
-- is minted, after which a poll at `now` by the client that requested the code, where `now` is not
-- after the expiry and not too soon after the last poll, gets the approval of `a` with the scope of
-- the request, and a poll by any other client is answered as foreign.
pub device-completes :
    (key : Text) (e : DeviceEntry) (c : Ceremony) (a : Approver) (now : ℕ)
    → lookup key c.codes ≡ some e
    → e.status ≡ pending
    → c.claims ≡ []
    → now ≤ e.expires_at
    → too_fast now e ≡ false
    → (c' : Ceremony) × Run key c [] c'
      × ((get_mut c'.codes key (poll_entry e.client_id now)).1
          ≡ some (approved_poll (approval_of e.scope a)))
      × ((other : Text)
          → other ≢ e.client_id
          → (get_mut c'.codes key (poll_entry other now)).1 ≡ some foreign_client)
unfolding claim_entry commit_approval
device-completes key e c a now found status idle in_time slow =
    let claimed_entry = get_mut-present c.codes key claim_entry e found in
    let won : claim_entry e
        ≡ (record e { status = approving }, ready e.client_id e.scope e.expires_at) =
      rw (status, claim_entry) refl in
    let codes1 = (get_mut c.codes key claim_entry).0 in
    let busy : add_claim (get_mut c.codes key claim_entry).1 a c.claims ≡ a ∷ [] =
      ap (λ r. add_claim r a c.claims) (claimed_entry.1 ∙ ap (λ r. some r.1) won)
      ∙ ap (λ (others : List Approver). a ∷ others) idle in
    let commit = commit_approval a.user_id a.mfa a.auth_time in
    let committed =
      get_mut-present codes1 key commit (record e { status = approving })
        (claimed_entry.0 ∙ ap (λ r. some r.0) won) in
    let codes2 = (get_mut codes1 key commit).0 in
    let approved_entry : DeviceEntry = record e {
      status = approved;
      user_id = some a.user_id;
      mfa = some a.mfa;
      auth_time = some a.auth_time;
    } in
    let own = get_mut-present codes2 key (poll_entry e.client_id now) approved_entry committed.0 in
    let c1 : Ceremony = record {
      codes = codes1;
      claims = add_claim (get_mut c.codes key claim_entry).1 a c.claims;
    } in
    let c2 : Ceremony = record { codes = codes2; claims = [] } in
    let last : Run key c1 [] c2 = next [] (commits a [] [] busy) done in
    (
      c2,
      next [] (claims_code a) last,
      own.1 ∙ ap some (poll_entry-approval e a now in_time slow),
      λ other ne.
          (get_mut-present codes2 key (poll_entry other now) approved_entry committed.0).1
          ∙ ap some (poll_entry-foreign other now approved_entry ne),
    )
