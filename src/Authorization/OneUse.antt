-- ===== src/Authorization/OneUse.antt =====
-- About how often an authorization of app/authorization/registry.py can be consumed.
use webull_aitrader.Shared.{
  ◌≡◌, ◌∙◌, refl, sym, ◌≤◌, Bool, true, false, ◌&&◌, inl, inr, some, List, [], ◌∷◌, Text, strip,
  is_empty, text_eq, text_eq_iff, text_eq_refl, Result-cases, is_ok, is_ok→ok, ok, raise_if-eq-ok,
  ok-injective, Datetime, lacks_tzinfo, lookup, insert, lookup-insert, Bool-cases, arith,
  if◌then◌else◌,
}
use mathlib.Core.Path.{subst}
use webull_aitrader.Authorization.{Digests, naive_timestamp, approval_required}
use webull_aitrader.Authorization.Registry.{
  Row, EvidenceColumn, Registry, set_column, set_evidence, consume,
}
use webull_aitrader.Authorization.Consumption.{
  Flagged, was_consumed, was_revoked, consume-Consumed, Flagged-consume_fails,
}
use webull_aitrader.Authorization.Histories.{
  AuthCall, issue, revoke_one, withdraw, spend, perform, kept, state_after, after_calls, spends,
  times_spent, issue_keeps, revoke_keeps, consume_keeps,
}

consumed_consumed :
    (row : Row) (t : Datetime)
    → was_consumed row ≡ true
    → was_consumed (record row { consumed_at = some t }) ≡ true
consumed_consumed row t h = refl

revoked_consumed :
    (row : Row) (t : Datetime)
    → was_consumed row ≡ true
    → was_consumed (record row { revoked_at = some t }) ≡ true
revoked_consumed row t h = h

pub consumed_revoked :
    (row : Row) (t : Datetime)
    → was_revoked row ≡ true
    → was_revoked (record row { consumed_at = some t }) ≡ true
consumed_revoked row t h = h

pub revoked_revoked :
    (row : Row) (t : Datetime)
    → was_revoked row ≡ true
    → was_revoked (record row { revoked_at = some t }) ≡ true
revoked_revoked row t h = refl

pub set_evidence-rows :
    (r : Registry) (id : Text) (column : EvidenceColumn) (timestamp : Datetime) {r' : Registry}
    → set_evidence r id column timestamp ≡ ok r'
    → r' ≡ (record r {
      evidence_state =
          insert id (set_column column timestamp (lookup id r.evidence_state)) r.evidence_state;
    })
unfolding set_evidence
set_evidence-rows r id column timestamp h =
    let a = raise_if-eq-ok (is_empty (strip id)) approval_required _ h in
    let b = raise_if-eq-ok (lacks_tzinfo timestamp.zone) naive_timestamp _ a.1 in
    sym (ok-injective b.1)

used_up : (s c : Bool) → s ≡ true → (s && c) ≡ false → c ≡ false
used_up s c h k = ground arith

third_false : (x y z : Bool) → (x ≡ true → y ≡ true → z ≡ false) → (x && y && z) ≡ false
third_false true true z h = h refl refl
third_false true false z h = refl
third_false false y z h = refl

all_true : (x y z : Bool) → (x && y && z) ≡ true → (x ≡ true) × (y ≡ true) × (z ≡ true)
all_true x y z h = ground arith

chosen : {A : Type 0} (b : Bool) (x y : A) → b ≡ true → (if b then x else y) ≡ x
chosen b x y h = rw h refl

module _ (digests : Digests) where
  -- A flag that both updates of a row keep stays set.
  module _ (flag : Row → Bool) (id : Text)
      (consumed_keeps : (row : Row) (t : Datetime)
        → flag row ≡ true
        → flag (record row { consumed_at = some t }) ≡ true)
      (revoked_keeps : (row : Row) (t : Datetime)
        → flag row ≡ true
        → flag (record row { revoked_at = some t }) ≡ true) where
    perform_keeps :
        (call : AuthCall) (r : Registry) {r' : Registry}
        → perform digests call r ≡ ok r'
        → Flagged flag id r
        → Flagged flag id r'
    unfolding perform
    perform_keeps (issue i g) r h f =
        issue_keeps flag id consumed_keeps revoked_keeps digests i g r h f
    perform_keeps (revoke_one key timestamp) r h f =
        revoke_keeps flag id consumed_keeps revoked_keeps digests r key timestamp h f
    perform_keeps (withdraw column key timestamp) r h f =
        subst (Flagged flag id) (sym (set_evidence-rows r key column timestamp h)) f
    perform_keeps (spend i a now) r h f =
        consume_keeps flag id consumed_keeps revoked_keeps digests r i a now h f

    pub after_keeps :
        (call : AuthCall) (r : Registry)
        → Flagged flag id r
        → Flagged flag id (state_after digests call r)
    after_keeps call r f = elim (Result-cases (perform digests call r)) [
      | inl returned ↦ rw returned.1 (perform_keeps call r returned.1 f)
      | inr raised ↦ rw raised.1 f
    ]

    pub after_calls_keeps :
        (calls : List AuthCall) (r : Registry)
        → Flagged flag id r
        → Flagged flag id (after_calls digests calls r)
    unfolding after_calls
    after_calls_keeps [] r f = f
    after_calls_keeps (call ∷ calls) r f =
        after_calls_keeps calls (state_after digests call r) (after_keeps call r f)

  module _ (id : Text) where
    spent_already :
        (call : AuthCall) (r : Registry)
        → Flagged was_consumed id r
        → spends digests id call r ≡ false
    unfolding spends
    spent_already (issue i g) r f = refl
    spent_already (revoke_one known timestamp) r f = refl
    spent_already (withdraw column known timestamp) r f = refl
    spent_already (spend i a now) r f =
        third_false (text_eq a.authorization_id id) a.single_use (is_ok (consume digests r i a now))
          (λ same once.
            Flagged-consume_fails was_consumed digests r i a now
              (subst (λ t. Flagged was_consumed t r)
                (sym ((text_eq_iff a.authorization_id id).0 same)) f)
              (λ row n c. used_up a.single_use (was_consumed row) once c))

    spending_marks :
        (call : AuthCall) (r : Registry)
        → spends digests id call r ≡ true
        → Flagged was_consumed id (state_after digests call r)
    unfolding spends perform
    spending_marks (issue i g) r h = cc
    spending_marks (revoke_one known timestamp) r h = cc
    spending_marks (withdraw column known timestamp) r h = cc
    spending_marks (spend i a now) r h =
        let parts =
          all_true (text_eq a.authorization_id id) a.single_use (is_ok (consume digests r i a now))
            h in
        let done = is_ok→ok (consume digests r i a now) parts.2 in
        let c = consume-Consumed digests r i a now done.1 in
        let same = (text_eq_iff a.authorization_id id).0 parts.0 in
        subst (λ m. Flagged was_consumed id (kept digests r m)) (sym done.1)
          (subst (Flagged was_consumed id) (sym (c.result ∙ chosen a.single_use _ r parts.1)) (
            record c.row { consumed_at = some now },
            lookup-insert id a.authorization_id (record c.row { consumed_at = some now })
                  r.authorizations
                ∙ rw same (rw (text_eq_refl id) refl),
            refl,
          ))

    never_again :
        (calls : List AuthCall) (r : Registry)
        → Flagged was_consumed id r
        → times_spent digests id calls r ≡ 0
    unfolding times_spent
    never_again [] r f = refl
    never_again (call ∷ calls) r f = rw (spent_already call r f) (
        never_again calls (state_after digests call r)
          (after_keeps was_consumed id consumed_consumed revoked_consumed call r f))

    -- Whatever calls the registry gets, in any order and whether they return or raise, at most one
    -- consumption of an id as a single-use authorization returns.
    pub times_spent_at_most_once :
        (calls : List AuthCall) (r : Registry) → times_spent digests id calls r ≤ 1
    unfolding times_spent
    times_spent_at_most_once [] r = omega arith
    times_spent_at_most_once (call ∷ calls) r = elim (Bool-cases (spends digests id call r)) [
      | inl spent ↦
          rw (spent, never_again calls (state_after digests call r) (spending_marks call r spent))
            (omega arith)
      | inr not_spent ↦ rw not_spent (times_spent_at_most_once calls (state_after digests call r))
    ]
