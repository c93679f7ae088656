-- ===== src/Authorization/Histories.antt =====
-- About sequences of calls of app/authorization/: issues, revocations, withdrawals of evidence and
-- consumptions, in any order, whether they return or raise.
use webull_aitrader.Shared.{
  ◌≡◌, ◌∙◌, refl, sym, ap, ℕ, suc, Bool, true, false, ◌&&◌, inl, inr, Option, none, some, List, [],
  ◌∷◌, Text, text_eq, text_eq_iff, is_some, Result, is_ok, ok, err, >>=-eq-ok, raise_if-eq-ok,
  ok-injective, Datetime, lacks_tzinfo, lookup, insert, lookup-insert, Bool-cases, if◌then◌else◌,
}
use mathlib.Core.Path.{subst}
use webull_aitrader.Authorization.{
  ExecutionIntent, LiveExecutionAuthorization, AuthError, Digests, id_exists, naive_timestamp,
}
use webull_aitrader.Authorization.Registry.{
  Row, EvidenceColumn, Registry, known_row, reread, register_issued, or_issued, revoke,
  set_evidence, consume,
}
use webull_aitrader.Authorization.Issuer.{IssueArgs, authorization_for, issue_authorization}
use webull_aitrader.Authorization.Issued.{issue-registered}
use webull_aitrader.Authorization.Consumption.{Flagged, row_of-eq-ok, some_same, consume-Consumed}

pub data AuthCall : Type 0 where
  issue : ExecutionIntent → IssueArgs → AuthCall
  revoke_one : Text → Option Datetime → AuthCall
  withdraw : EvidenceColumn → Text → Datetime → AuthCall
  spend : ExecutionIntent → LiveExecutionAuthorization → Datetime → AuthCall

module _ (digests : Digests) where
  abbrev pub issued_registry :
      Result AuthError (LiveExecutionAuthorization × Registry) → Result AuthError Registry
  issued_registry (ok issued) = ok issued.1
  issued_registry (err e) = err e

  unfoldable pub perform : AuthCall → Registry → Result AuthError Registry
  perform (issue i g) r = issued_registry (issue_authorization digests i g r)
  perform (revoke_one id timestamp) r = revoke digests r id timestamp
  perform (withdraw column id timestamp) r = set_evidence r id column timestamp
  perform (spend i a now) r = consume digests r i a now

  -- The tables after a call: a call that raises is rolled back.
  abbrev pub kept : Registry → Result AuthError Registry → Registry
  kept r (ok next) = next
  kept r (err e) = r

  abbrev pub state_after : AuthCall → Registry → Registry
  state_after call r = kept r (perform call r)

  unfoldable pub after_calls : List AuthCall → Registry → Registry
  after_calls [] r = r
  after_calls (call ∷ calls) r = after_calls calls (state_after call r)

  -- Whether a call is a consumption of this id as a single-use authorization that returns.
  unfoldable pub spends : Text → AuthCall → Registry → Bool
  spends id (issue i g) r = false
  spends id (revoke_one known timestamp) r = false
  spends id (withdraw column known timestamp) r = false
  spends id (spend i a now) r =
      text_eq a.authorization_id id && a.single_use && is_ok (consume digests r i a now)

  -- How often a sequence of calls spends it.
  unfoldable pub times_spent : Text → List AuthCall → Registry → ℕ
  times_spent id [] r = 0
  times_spent id (call ∷ calls) r =
      let later = times_spent id calls (state_after call r) in
      if spends id call r then suc later else later

pub issued_by :
    (digests : Digests) (m : Result AuthError (LiveExecutionAuthorization × Registry))
    {r' : Registry}
    → issued_registry digests m ≡ ok r'
    → (a : LiveExecutionAuthorization) × (m ≡ ok (a, r'))
issued_by digests (ok x) h = (x.0, ap (λ y. ok (x.0, y)) (ok-injective h))
issued_by digests (err e) h = cc

absent_row :
    {A : Type 0} {b : Bool} (o : Option A) {x : A} → o ≡ some x → is_some o ≡ false → b ≡ true
absent_row none h k = cc
absent_row (some y) h k = cc

module _ (flag : Row → Bool) (id : Text)
    (consumed_keeps : (row : Row) (t : Datetime)
      → flag row ≡ true
      → flag (record row { consumed_at = some t }) ≡ true)
    (revoked_keeps : (row : Row) (t : Datetime)
      → flag row ≡ true
      → flag (record row { revoked_at = some t }) ≡ true) where
  -- A new row under some key keeps the flag, when it keeps that of the row it replaces.
  insert_keeps :
      (key : Text) (new : Row) (r : Registry)
      → ((old : Row) → lookup key r.authorizations ≡ some old → flag old ≡ true → flag new ≡ true)
      → Flagged flag id r
      → Flagged flag id (record r { authorizations = insert key new r.authorizations })
  insert_keeps key new r keeps f = elim (Bool-cases (text_eq id key)) [
    | inl same ↦ (
      new,
      lookup-insert id key new r.authorizations ∙ rw same refl,
      keeps f.0 (ap (λ t. lookup t r.authorizations) (sym ((text_eq_iff id key).0 same)) ∙ f.1) f.2,
    )
    | inr other ↦ (f.0, lookup-insert id key new r.authorizations ∙ rw other f.1, f.2)
  ]

  register_keeps :
      (r : Registry) (a : LiveExecutionAuthorization) {r' : Registry}
      → register_issued r a ≡ ok r'
      → Flagged flag id r
      → Flagged flag id r'
  unfolding register_issued
  register_keeps r a h f =
      let g = raise_if-eq-ok (is_some (lookup a.authorization_id r.authorizations)) id_exists _ h in
      let new : Row = record {
        payload = a;
        issued_at = a.issued_at;
        consumed_at = none;
        revoked_at = none;
      } in
      subst (Flagged flag id) (ok-injective g.1) (
        insert_keeps a.authorization_id new r
          (λ old there was. absent_row (lookup a.authorization_id r.authorizations) there g.0) f)

  pub issue_keeps :
      (digests : Digests) (i : ExecutionIntent) (g : IssueArgs) (r : Registry) {r' : Registry}
      → issued_registry digests (issue_authorization digests i g r) ≡ ok r'
      → Flagged flag id r
      → Flagged flag id r'
  issue_keeps digests i g r h f =
      let made = issued_by digests (issue_authorization digests i g r) h in
      register_keeps r (authorization_for digests i g) (issue-registered digests i g r made.1) f

  pub revoke_keeps :
      (digests : Digests) (r : Registry) (key : Text) (timestamp : Option Datetime) {r' : Registry}
      → revoke digests r key timestamp ≡ ok r'
      → Flagged flag id r
      → Flagged flag id r'
  unfolding revoke
  revoke_keeps digests r key timestamp h f =
      let k = >>=-eq-ok (known_row r key) _ h in
      let y = >>=-eq-ok (reread digests k.0.payload) _ k.2 in
      let when = or_issued timestamp y.0 in
      let t = raise_if-eq-ok (lacks_tzinfo when.zone) naive_timestamp _ y.2 in
      let there = row_of-eq-ok (lookup key r.authorizations) k.1 in
      subst (Flagged flag id) (ok-injective t.1) (
        insert_keeps key (record k.0 { revoked_at = some when }) r
          (λ old was_there was.
            revoked_keeps k.0 when (subst (λ x. flag x ≡ true) (some_same was_there there) was))
          f)

  pub consume_keeps :
      (digests : Digests) (r : Registry) (i : ExecutionIntent) (a : LiveExecutionAuthorization)
      (now : Datetime) {r' : Registry}
      → consume digests r i a now ≡ ok r'
      → Flagged flag id r
      → Flagged flag id r'
  consume_keeps digests r i a now h f =
      let c = consume-Consumed digests r i a now h in
      subst (Flagged flag id) (sym c.result) (elim (Bool-cases a.single_use) [
        | inr many ↦ rw many f
        | inl once ↦ rw once (
            insert_keeps a.authorization_id (record c.row { consumed_at = some now }) r
              (λ old was_there was.
                consumed_keeps c.row now
                  (subst (λ x. flag x ≡ true) (some_same was_there c.known) was))
              f)
      ])
