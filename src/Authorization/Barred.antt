-- ===== src/Authorization/Barred.antt =====
-- About authorizations of app/authorization/registry.py that are revoked, or whose evidence is.
use webull_aitrader.Shared.{
  ◌≡◌, ◌∙◌, refl, sym, ap, Bool, true, false, ◌||◌, inl, inr, Option, none, some, List, [], ◌∷◌,
  Text, text_eq, text_eq_refl, is_some, Result-cases, is_ok, ok, >>=-eq-ok, raise_if-eq-ok,
  ok-injective, Datetime, lacks_tzinfo, lookup, lookup-insert, Bool-cases, arith, if◌then◌else◌,
}
use mathlib.Core.Path.{subst}
use webull_aitrader.Authorization.{
  ExecutionIntent, LiveExecutionAuthorization, Digests, id_exists, naive_timestamp,
}
use webull_aitrader.Authorization.Registry.{
  reread, Row, EvidenceRow, EvidenceColumn, revoked_column, superseded_column, Registry, known_row,
  register_issued, or_issued, revoke, set_column, set_evidence, consume,
}
use webull_aitrader.Authorization.Issuer.{authorization_for, issue_authorization}
use webull_aitrader.Authorization.Issued.{issue-registered}
use webull_aitrader.Authorization.Consumption.{
  Flagged, was_revoked, Withdrawn, consume-Consumed, Flagged-consume_fails, evidence_fails,
}
use webull_aitrader.Authorization.Histories.{
  AuthCall, issue, revoke_one, withdraw, spend, perform, state_after, after_calls, issued_by,
}
use webull_aitrader.Authorization.OneUse.{
  after_calls_keeps, consumed_revoked, revoked_revoked, set_evidence-rows,
}

-- A call that revokes an authorization, or withdraws evidence of it.
pub data Bars (a : LiveExecutionAuthorization) : AuthCall → Type 0 where
  bars_one : (timestamp : Option Datetime) → Bars a (revoke_one a.authorization_id timestamp)
  bars_risk :
      (column : EvidenceColumn) (timestamp : Datetime)
      → Bars a (withdraw column a.risk_approval_id timestamp)
  bars_compliance :
      (column : EvidenceColumn) (timestamp : Datetime)
      → Bars a (withdraw column a.compliance_approval_id timestamp)

-- Evidence that is in the table under either column stays in it.
set_column_keeps :
    (column : EvidenceColumn) (t : Datetime) (row : EvidenceRow)
    → (is_some row.revoked_at || is_some row.superseded_at) ≡ true
    → (is_some (set_column column t (some row)).revoked_at
        || is_some (set_column column t (some row)).superseded_at)
      ≡ true
set_column_keeps revoked_column t row h = refl
set_column_keeps superseded_column t row h = ground arith

set_column_sets :
    (column : EvidenceColumn) (t : Datetime) (o : Option EvidenceRow)
    → (is_some (set_column column t o).revoked_at || is_some (set_column column t o).superseded_at)
      ≡ true
set_column_sets revoked_column t none = refl
set_column_sets revoked_column t (some row) = refl
set_column_sets superseded_column t none = refl
set_column_sets superseded_column t (some row) = ground arith

register-evidence :
    (r : Registry) (a : LiveExecutionAuthorization) {r' : Registry}
    → register_issued r a ≡ ok r'
    → r'.evidence_state ≡ r.evidence_state
unfolding register_issued
register-evidence r a h =
    let g = raise_if-eq-ok (is_some (lookup a.authorization_id r.authorizations)) id_exists _ h in
    sym (ap (λ x. x.evidence_state) (ok-injective g.1))

revoke-evidence :
    (digests : Digests) (r : Registry) (id : Text) (timestamp : Option Datetime) {r' : Registry}
    → revoke digests r id timestamp ≡ ok r'
    → r'.evidence_state ≡ r.evidence_state
unfolding revoke
revoke-evidence digests r id timestamp h =
    let k = >>=-eq-ok (known_row r id) _ h in
    let y = >>=-eq-ok (reread digests k.0.payload) _ k.2 in
    let t = raise_if-eq-ok (lacks_tzinfo (or_issued timestamp y.0).zone) naive_timestamp _ y.2 in
    sym (ap (λ x. x.evidence_state) (ok-injective t.1))

either_registry :
    (b : Bool) (x y : Registry)
    → x.evidence_state ≡ y.evidence_state
    → (if b then x else y).evidence_state ≡ y.evidence_state
either_registry true x y h = h
either_registry false x y h = refl

module _ (digests : Digests) (id : Text) where
  consume-evidence :
      (r : Registry) (i : ExecutionIntent) (a : LiveExecutionAuthorization) (now : Datetime)
      {r' : Registry}
      → consume digests r i a now ≡ ok r'
      → r'.evidence_state ≡ r.evidence_state
  consume-evidence r i a now h =
      let c = consume-Consumed digests r i a now h in
      ap (λ x. x.evidence_state) c.result ∙ either_registry a.single_use _ r refl

  same_evidence :
      (r r' : Registry) → r'.evidence_state ≡ r.evidence_state → Withdrawn id r → Withdrawn id r'
  same_evidence r r' e w = (w.0, ap (λ d. lookup id d) e ∙ w.1, w.2)

  perform-Withdrawn :
      (call : AuthCall) (r : Registry) {r' : Registry}
      → perform digests call r ≡ ok r'
      → Withdrawn id r
      → Withdrawn id r'
  unfolding perform
  perform-Withdrawn (issue i g) r {r' = r'} h w =
      let made = issued_by digests (issue_authorization digests i g r) h in
      same_evidence r r'
        (register-evidence r (authorization_for digests i g)
          (issue-registered digests i g r made.1))
        w
  perform-Withdrawn (revoke_one key timestamp) r {r' = r'} h w =
      same_evidence r r' (revoke-evidence digests r key timestamp h) w
  perform-Withdrawn (spend i a now) r {r' = r'} h w =
      same_evidence r r' (consume-evidence r i a now h) w
  perform-Withdrawn (withdraw column key timestamp) r {r' = r'} h w =
      let new = set_column column timestamp (lookup key r.evidence_state) in
      subst (Withdrawn id) (sym (set_evidence-rows r key column timestamp h))
        (elim (Bool-cases (text_eq id key)) [
          | inl same ↦ (
            new,
            lookup-insert id key new r.evidence_state ∙ rw same refl,
            set_column_sets column timestamp (lookup key r.evidence_state),
          )
          | inr other ↦ (w.0, lookup-insert id key new r.evidence_state ∙ rw other w.1, w.2)
        ])

  after_calls-Withdrawn :
      (calls : List AuthCall) (r : Registry)
      → Withdrawn id r
      → Withdrawn id (after_calls digests calls r)
  unfolding after_calls
  after_calls-Withdrawn [] r w = w
  after_calls-Withdrawn (call ∷ calls) r w =
      after_calls-Withdrawn calls (state_after digests call r)
        (elim (Result-cases (perform digests call r)) [
          | inl returned ↦ rw returned.1 (perform-Withdrawn call r returned.1 w)
          | inr raised ↦ rw raised.1 w
        ])

withdraw-Withdrawn :
    (r : Registry) (id : Text) (column : EvidenceColumn) (t : Datetime) {r' : Registry}
    → set_evidence r id column t ≡ ok r'
    → Withdrawn id r'
withdraw-Withdrawn r id column t h =
    let new = set_column column t (lookup id r.evidence_state) in
    subst (Withdrawn id) (sym (set_evidence-rows r id column t h)) (
      new,
      lookup-insert id id new r.evidence_state ∙ rw (text_eq_refl id) refl,
      set_column_sets column t (lookup id r.evidence_state),
    )

revoke-Flagged :
    (digests : Digests) (r : Registry) (id : Text) (timestamp : Option Datetime) {r' : Registry}
    → revoke digests r id timestamp ≡ ok r'
    → Flagged was_revoked id r'
unfolding revoke
revoke-Flagged digests r id timestamp h =
    let k = >>=-eq-ok (known_row r id) _ h in
    let y = >>=-eq-ok (reread digests k.0.payload) _ k.2 in
    let when = or_issued timestamp y.0 in
    let t = raise_if-eq-ok (lacks_tzinfo when.zone) naive_timestamp _ y.2 in
    let new : Row = record k.0 { revoked_at = some when } in
    subst (Flagged was_revoked id) (ok-injective t.1)
      (new, lookup-insert id id new r.authorizations ∙ rw (text_eq_refl id) refl, refl)

-- Once a call that revokes an authorization, or withdraws its risk or its compliance evidence, has
-- returned, no consumption of the authorization returns, whatever calls come between, for any intent
-- and at any time.
pub consume_barred :
    (digests : Digests) (a : LiveExecutionAuthorization) (call : AuthCall) (r : Registry)
    {r' : Registry}
    → Bars a call
    → perform digests call r ≡ ok r'
    → (calls : List AuthCall) (i : ExecutionIntent) (now : Datetime)
    → is_ok (consume digests (after_calls digests calls r') i a now) ≡ false
unfolding perform
consume_barred digests a _ r {r' = r'} (bars_one t) h calls i now =
    Flagged-consume_fails was_revoked digests (after_calls digests calls r') i a now
      (after_calls_keeps digests was_revoked a.authorization_id consumed_revoked revoked_revoked
        calls r' (revoke-Flagged digests r a.authorization_id t h))
      (λ row n c. n)
consume_barred digests a _ r {r' = r'} (bars_risk k t) h calls i now =
    evidence_fails digests (after_calls digests calls r') i a now (
      inl (
        after_calls-Withdrawn digests a.risk_approval_id calls r'
          (withdraw-Withdrawn r a.risk_approval_id k t h)))
consume_barred digests a _ r {r' = r'} (bars_compliance k t) h calls i now =
    evidence_fails digests (after_calls digests calls r') i a now (
      inr (
        after_calls-Withdrawn digests a.compliance_approval_id calls r'
          (withdraw-Withdrawn r a.compliance_approval_id k t h)))
