-- ===== src/Authorization/Consumption.antt =====
-- About one `consume` of app/authorization/registry.py.
use webull_aitrader.Shared.{
  ◌≡◌, refl, sym, ap, Bool, true, false, not, ◌||◌, ◌&&◌, ◌⊎◌, inl, inr, Option, none, some, Text,
  is_some, Result, Result-cases, is_ok, ok, err, ◌>>◌, >>=-eq-ok, >>-eq-ok, raise_if-eq-ok,
  ok-injective, Datetime, lookup, insert, arith, if◌then◌else◌,
}
use mathlib.Core.Path.{subst}
use webull_aitrader.Authorization.{
  ExecutionIntent, LiveExecutionAuthorization, Digests, validate_for_consumption, substitution,
  is_revoked, is_consumed, raced,
}
use webull_aitrader.Authorization.Registry.{
  Row, EvidenceRow, Registry, authorization_eq, reread, row_of, known_row, withdrawn,
  validate_evidence_state, mark_consumed, consume,
}

-- Some row of an id, with a flag set.
abbrev pub Flagged : (Row → Bool) → Text → Registry → Type 0
Flagged flag id r = (row : Row) × (lookup id r.authorizations ≡ some row) × (flag row ≡ true)

abbrev pub was_consumed : Row → Bool
was_consumed row = is_some row.consumed_at

abbrev pub was_revoked : Row → Bool
was_revoked row = is_some row.revoked_at

-- Evidence that the registry has as revoked or superseded.
abbrev pub Withdrawn : Text → Registry → Type 0
Withdrawn id r =
    (row : EvidenceRow) × (lookup id r.evidence_state ≡ some row)
    × ((is_some row.revoked_at || is_some row.superseded_at) ≡ true)

negation : (b : Bool) → not b ≡ false → b ≡ true
negation true h = refl
negation false h = cc

pub both_ways : (b : Bool) {c : Bool} → b ≡ true → b ≡ false → c ≡ false
both_ways b h k = cc

raised_first :
    {E A : Type 0} (m : Result E (Unit {0})) (k : Result E A)
    → is_ok m ≡ false
    → is_ok (m >> k) ≡ false
raised_first (ok tt) k h = cc
raised_first (err e) k h = refl

raised_second :
    {E A : Type 0} (m : Result E (Unit {0})) (k : Result E A)
    → is_ok k ≡ false
    → is_ok (m >> k) ≡ false
raised_second (ok tt) k h = h
raised_second (err e) k h = refl

pub row_of-eq-ok : (o : Option Row) {row : Row} → row_of o ≡ ok row → o ≡ some row
row_of-eq-ok none h = cc
row_of-eq-ok (some row) h = ap some (ok-injective h)

-- What held when a consumption returned, and what it left.
pub record Consumed (digests : Digests) (r : Registry) (a : LiveExecutionAuthorization)
    (now : Datetime) (r' : Registry) : Type 0 where
  pub row : Row
  pub known : lookup a.authorization_id r.authorizations ≡ some row
  pub known_again : LiveExecutionAuthorization
  pub read_back : reread digests row.payload ≡ ok known_again
  pub same : authorization_eq digests known_again a ≡ true
  pub evidence_stands : validate_evidence_state r a ≡ ok tt
  pub not_revoked : was_revoked row ≡ false
  pub not_consumed : (a.single_use && was_consumed row) ≡ false
  pub result : r' ≡ (
      if a.single_use
      then (record r {
        authorizations =
            insert a.authorization_id (record row { consumed_at = some now }) r.authorizations;
      })
      else r)

marks :
    (b : Bool) (r : Registry) (a : LiveExecutionAuthorization) (row : Row) (now : Datetime)
    {r' : Registry}
    → (if b then mark_consumed r a row now else ok r) ≡ ok r'
    → r' ≡ (
        if b
        then (record r {
          authorizations =
              insert a.authorization_id (record row { consumed_at = some now }) r.authorizations;
        })
        else r)
unfolding mark_consumed
marks true r a row now h =
    sym (
      ok-injective (raise_if-eq-ok (is_some row.consumed_at || is_some row.revoked_at) raced _ h).1)
marks false r a row now h = sym (ok-injective h)

pub consume-Consumed :
    (digests : Digests) (r : Registry) (i : ExecutionIntent) (a : LiveExecutionAuthorization)
    (now : Datetime) {r' : Registry}
    → consume digests r i a now ≡ ok r'
    → Consumed digests r a now r'
unfolding consume
consume-Consumed digests r i a now h =
    let v = >>-eq-ok (validate_for_consumption digests i a now) _ h in
    let k = >>=-eq-ok (known_row r a.authorization_id) _ v.1 in
    let y = >>=-eq-ok (reread digests k.0.payload) _ k.2 in
    let s = raise_if-eq-ok (not (authorization_eq digests y.0 a)) substitution _ y.2 in
    let e = >>-eq-ok (validate_evidence_state r a) _ s.1 in
    let b = raise_if-eq-ok (is_some k.0.revoked_at) is_revoked _ e.1 in
    let c = raise_if-eq-ok (a.single_use && is_some k.0.consumed_at) is_consumed _ b.1 in
    record {
      row = k.0;
      known = row_of-eq-ok (lookup a.authorization_id r.authorizations) k.1;
      known_again = y.0;
      read_back = y.1;
      same = negation (authorization_eq digests y.0 a) s.0;
      evidence_stands = e.0;
      not_revoked = b.0;
      not_consumed = c.0;
      result = marks a.single_use r a k.0 now c.1;
    }

pub some_same : {A : Type 0} {o : Option A} {x y : A} → o ≡ some x → o ≡ some y → x ≡ y
some_same h k = cc

-- A flag of the row that a consumption does not allow.
pub Flagged-consume_fails :
    (flag : Row → Bool) (digests : Digests) (r : Registry) (i : ExecutionIntent)
    (a : LiveExecutionAuthorization) (now : Datetime)
    → Flagged flag a.authorization_id r
    → ((row : Row)
        → (was_revoked row ≡ false)
        → ((a.single_use && was_consumed row) ≡ false)
        → flag row ≡ false)
    → is_ok (consume digests r i a now) ≡ false
Flagged-consume_fails flag digests r i a now flagged refused =
    elim (Result-cases (consume digests r i a now)) [
      | inr failed ↦ rw failed.1 refl
      | inl returned ↦
          let c = consume-Consumed digests r i a now returned.1 in
          let clear = refused c.row c.not_revoked c.not_consumed in
          let same = some_same flagged.1 c.known in
          both_ways (flag c.row) (subst (λ x. flag x ≡ true) same flagged.2) clear
    ]

withdrawn_raises :
    (row : EvidenceRow)
    → (is_some row.revoked_at || is_some row.superseded_at) ≡ true
    → is_ok (withdrawn (some row)) ≡ false
withdrawn_raises row h = ground arith

evidence_raises :
    (r : Registry) (a : LiveExecutionAuthorization)
    → (Withdrawn a.risk_approval_id r ⊎ Withdrawn a.compliance_approval_id r)
    → is_ok (validate_evidence_state r a) ≡ false
unfolding validate_evidence_state
evidence_raises r a (inl w) =
    rw w.1 (raised_first (withdrawn (some w.0)) _ (withdrawn_raises w.0 w.2))
evidence_raises r a (inr w) =
    rw w.1 (raised_second _ (withdrawn (some w.0)) (withdrawn_raises w.0 w.2))

pub evidence_fails :
    (digests : Digests) (r : Registry) (i : ExecutionIntent) (a : LiveExecutionAuthorization)
    (now : Datetime)
    → (Withdrawn a.risk_approval_id r ⊎ Withdrawn a.compliance_approval_id r)
    → is_ok (consume digests r i a now) ≡ false
evidence_fails digests r i a now w = elim (Result-cases (consume digests r i a now)) [
  | inr failed ↦ rw failed.1 refl
  | inl returned ↦
      let c = consume-Consumed digests r i a now returned.1 in
      both_ways (is_ok (validate_evidence_state r a)) (ap is_ok c.evidence_stands)
        (evidence_raises r a w)
]
