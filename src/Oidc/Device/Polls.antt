-- ===== src/Oidc/Device/Polls.antt =====
-- Polls of a device code in src/oidc.rs as moves of its life.
use janux.Common.{Option, Text, ap, inl, inr, lookup, none, refl, some, subst, sym, ℕ, ◌∙◌, ◌≡◌}
use janux.Oidc.Device.{Approval, poll_entry}
use janux.Oidc.Device.Ceremony.{
  Phase, undecided, closed, claimed, granted, Move, stay, mint, lose, Approver, Ceremony, Models,
  minted, get_mut-present, poll_entry-cases, IsOver, get_mut-absent,
}
use janux.Ephem.{get_mut}

abbrev pub approval_of : Text → Approver → Approval
approval_of scope a = record {
  user_id = a.user_id;
  scope = scope;
  mfa = a.mfa;
  auth_time = a.auth_time;
}

abbrev pub approvals : Text → Option Approver → Option Approval
approvals scope none = none
approvals scope (some a) = some (approval_of scope a)

module _ (key scope : Text) where
  -- The abstract move that a call implements, and the phase after it.
  abbrev pub Simulates : Phase → Option Approval → Ceremony → Type 0
  Simulates p o c' =
      (p' : Phase) × (a : Option Approver) × Move p a p'
      × Models key scope p' c'
      × (o ≡ approvals scope a)

  pub gone-Simulates :
      (p : Phase) (c' : Ceremony) → lookup key c'.codes ≡ none → Simulates p none c'
  gone-Simulates p c' gone = (closed, none, lose, inl gone, refl)

  pub poll-Simulates :
      (c : Ceremony) (p : Phase) (client : Text) (now : ℕ)
      → Models key scope p c
      → Simulates p
          (minted (get_mut c.codes key (poll_entry client now)).1)
          (record c { codes = (get_mut c.codes key (poll_entry client now)).0 })
  poll-Simulates c undecided client now (e, found, in_scope, status, idle) =
      let (found', result) = get_mut-present c.codes key (poll_entry client now) e found in
      elim (poll_entry-cases client now e) [
        | inl ((st, sc, us, mf, at_time), unminted) ↦ (
          undecided,
          none,
          stay,
          ((poll_entry client now e).0, found', sc ∙ in_scope, st ∙ status, idle),
          ap minted result ∙ unminted,
        )
        | inr (clash, _, _) ↦ let k = sym status ∙ clash in cc
      ]
  poll-Simulates c (claimed a) client now (e, found, in_scope, status, busy) =
      let (found', result) = get_mut-present c.codes key (poll_entry client now) e found in
      elim (poll_entry-cases client now e) [
        | inl ((st, sc, us, mf, at_time), unminted) ↦ (
          claimed a,
          none,
          stay,
          ((poll_entry client now e).0, found', sc ∙ in_scope, st ∙ status, busy),
          ap minted result ∙ unminted,
        )
        | inr (clash, _, _) ↦ let k = sym status ∙ clash in cc
      ]
  poll-Simulates c (granted a) client now (e, found, in_scope, status, us0, mf0, at0, idle) =
      let (found', result) = get_mut-present c.codes key (poll_entry client now) e found in
      elim (poll_entry-cases client now e) [
        | inl ((st, sc, us, mf, at_time), unminted) ↦ (
          granted a,
          none,
          stay,
          (
            (poll_entry client now e).0,
            found',
            sc ∙ in_scope,
            st ∙ status,
            us ∙ us0,
            mf ∙ mf0,
            at_time ∙ at0,
            idle,
          ),
          ap minted result ∙ unminted,
        )
        | inr (_, over, approval) ↦ (
          closed,
          some a,
          mint,
          inr ((poll_entry client now e).0, found', subst IsOver (sym over) tt, idle),
          ap minted result ∙ ap (λ x. minted (some x)) approval ∙ rw (us0, mf0, at0, in_scope) refl,
        )
      ]
  poll-Simulates c closed client now (inl gone) =
      let same = get_mut-absent c.codes key (poll_entry client now) gone in
      (closed, none, stay, inl (ap (λ r. lookup key r.0) same ∙ gone), ap (λ r. minted r.1) same)
  poll-Simulates c closed client now (inr (e, found, over, idle)) =
      let (found', result) = get_mut-present c.codes key (poll_entry client now) e found in
      elim (poll_entry-cases client now e) [
        | inl ((st, sc, us, mf, at_time), unminted) ↦ (
          closed,
          none,
          stay,
          inr ((poll_entry client now e).0, found', subst IsOver (sym st) over, idle),
          ap minted result ∙ unminted,
        )
        | inr (clash, _, _) ↦ absurd (subst IsOver clash over)
      ]
