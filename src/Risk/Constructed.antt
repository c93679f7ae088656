-- ===== src/Risk/Constructed.antt =====
-- About what the constructors of app/risk/models.py and policies.py let through.
use webull_aitrader.Shared.{
  ◌≡◌, refl, Bool, true, false, not, ◌||◌, ◌&&◌, ℤ, pos, ◌≤ℤ◌, leb_ℤ, ltb_ℤ, ltb, eqb_ℤ, Text,
  strip, strip-strip, upper, text_eq, is_empty, ok, >>=-eq-ok, raise_if-eq-ok, ok-injective,
  Arithmetic, arith, Datetime, lacks_offset, fixed,
}
use webull_aitrader.Risk.{
  neutral_with_exposure, RiskPolicy, RiskState, RiskEvaluationRequest, RiskDecision, has_none,
  required_symbol, required_timestamp, validate_state, validate_policy, validate_risk_request,
  validate_risk_decision, symbol_empty, symbol_not_upper, outside_unit, is_neutral, is_reject,
  negative_amount, not_a_fraction, symbols_differ, opinion_in_future, state_in_future,
  naive_timestamp, equity_not_positive, symbol_over_gross, version_empty, no_checks, out_of_bounds,
  reject_with_exposure, to_utc,
}

-- A symbol and a version that a constructor has stripped.
pub record IsSymbol (t : Text) : Type 0 where
  pub not_empty : is_empty t ≡ false
  pub stripped : strip t ≡ t
  pub uppercase : text_eq t (upper t) ≡ true

pub record IsVersion (t : Text) : Type 0 where
  pub not_empty : is_empty t ≡ false
  pub stripped : strip t ≡ t

negation : (b : Bool) → not b ≡ false → b ≡ true
negation true h = refl
negation false h = cc

required_symbol-IsSymbol : (t : Text) {u : Text} → required_symbol t ≡ ok u → IsSymbol u
unfolding required_symbol
required_symbol-IsSymbol t {u = u} h =
    let a = raise_if-eq-ok (is_empty (strip t)) symbol_empty _ h in
    let b = raise_if-eq-ok (not (text_eq (strip t) (upper (strip t)))) symbol_not_upper _ a.1 in
    let e = ok-injective b.1 in
    rw (← e) (record { not_empty = a.0; stripped = strip-strip t; uppercase = negation _ b.0 })

pub IsSymbol-required_symbol : (t : Text) → IsSymbol t → required_symbol t ≡ ok t
unfolding required_symbol
IsSymbol-required_symbol t s = rw (s.stripped, s.not_empty, s.uppercase) refl

required_timestamp-fixed :
    (t : Datetime) {u : Datetime} → required_timestamp t ≡ ok u → u.zone ≡ fixed
unfolding required_timestamp to_utc
required_timestamp-fixed t h =
    let a = raise_if-eq-ok (lacks_offset t.zone) naive_timestamp _ h in
    let e = ok-injective a.1 in rw (← e) refl

module _ (decimal : Arithmetic) where
  abbrev pub IsFraction : ℤ → Type 0
  IsFraction v = (pos 0 ≤ℤ v) × (v ≤ℤ pos decimal.scale)

  outside_unit-IsFraction : (v : ℤ) → outside_unit decimal v ≡ false → IsFraction v
  outside_unit-IsFraction v h = ground arith

  pub IsFraction-outside_unit : (v : ℤ) → IsFraction v → outside_unit decimal v ≡ false
  IsFraction-outside_unit v h = ground arith

  -- What the constructors of a request, of its state and of a policy establish.
  pub record IsRequest (q : RiskEvaluationRequest) : Type 0 where
    pub aware : q.timestamp.zone ≡ fixed
    pub notional_nonnegative : pos 0 ≤ℤ q.requested_notional
    pub risk_fraction : IsFraction q.requested_risk_fraction

  pub record IsState (s : RiskState) : Type 0 where
    pub symbol_good : IsSymbol s.symbol
    pub power_nonnegative : pos 0 ≤ℤ s.available_buying_power

  pub record IsPolicy (p : RiskPolicy) : Type 0 where
    pub version_good : IsVersion p.version
    pub maximum_risk : IsFraction p.maximum_requested_risk_fraction

  not_negative : (v : ℤ) → ltb_ℤ v (pos 0) ≡ false → pos 0 ≤ℤ v
  not_negative v h = ground arith

  pub validate_risk_request-IsRequest :
      (q : RiskEvaluationRequest) {r : RiskEvaluationRequest}
      → validate_risk_request decimal q ≡ ok r
      → IsRequest r
  unfolding validate_risk_request
  validate_risk_request-IsRequest q h =
      let o = q.committee_opinion in
      let a = raise_if-eq-ok (not (text_eq o.symbol q.risk_state.symbol)) symbols_differ _ h in
      let b = >>=-eq-ok (required_timestamp q.timestamp) _ a.1 in
      let c = raise_if-eq-ok (ltb b.0.instant o.timestamp.instant) opinion_in_future _ b.2 in
      let d =
        raise_if-eq-ok (ltb b.0.instant q.risk_state.timestamp.instant) state_in_future _ c.1 in
      let e = raise_if-eq-ok (ltb_ℤ q.requested_notional (pos 0)) negative_amount _ d.1 in
      let f =
        raise_if-eq-ok (outside_unit decimal q.requested_risk_fraction) not_a_fraction _ e.1 in
      let g =
        raise_if-eq-ok
          (is_neutral o.action
            && (not (eqb_ℤ q.requested_notional (pos 0))
                || not (eqb_ℤ q.requested_risk_fraction (pos 0))))
          neutral_with_exposure _ f.1 in
      rw (← ok-injective g.1) (record {
        aware = required_timestamp-fixed q.timestamp b.1;
        notional_nonnegative = not_negative q.requested_notional e.0;
        risk_fraction = outside_unit-IsFraction q.requested_risk_fraction f.0;
      })

  pub validate_state-IsState :
      (s : RiskState) {t : RiskState} → validate_state decimal s ≡ ok t → IsState t
  unfolding validate_state
  validate_state-IsState s h =
      let a = >>=-eq-ok (required_symbol s.symbol) _ h in
      let b = >>=-eq-ok (required_timestamp s.timestamp) _ a.2 in
      let c = raise_if-eq-ok (leb_ℤ s.account_equity (pos 0)) equity_not_positive _ b.2 in
      let d = raise_if-eq-ok (ltb_ℤ s.available_buying_power (pos 0)) negative_amount _ c.1 in
      let e = raise_if-eq-ok (ltb_ℤ s.current_symbol_exposure (pos 0)) negative_amount _ d.1 in
      let f = raise_if-eq-ok (ltb_ℤ s.total_gross_exposure (pos 0)) negative_amount _ e.1 in
      let g =
        raise_if-eq-ok (ltb_ℤ s.total_gross_exposure s.current_symbol_exposure) symbol_over_gross _
          f.1 in
      let k =
        raise_if-eq-ok (outside_unit decimal s.current_drawdown_fraction) not_a_fraction _ g.1 in
      rw (← ok-injective k.1) (record {
        symbol_good = required_symbol-IsSymbol s.symbol a.1;
        power_nonnegative = not_negative s.available_buying_power d.0;
      })

  pub validate_policy-IsPolicy :
      (p : RiskPolicy) {r : RiskPolicy} → validate_policy decimal p ≡ ok r → IsPolicy r
  unfolding validate_policy
  validate_policy-IsPolicy p h =
      let a = raise_if-eq-ok (is_empty (strip p.version)) version_empty _ h in
      let b =
        raise_if-eq-ok (outside_unit decimal p.maximum_symbol_exposure_fraction) not_a_fraction _
          a.1 in
      let c =
        raise_if-eq-ok (outside_unit decimal p.maximum_gross_exposure_fraction) not_a_fraction _
          b.1 in
      let d =
        raise_if-eq-ok (outside_unit decimal p.maximum_daily_loss_fraction) not_a_fraction _ c.1 in
      let e =
        raise_if-eq-ok (outside_unit decimal p.maximum_drawdown_fraction) not_a_fraction _ d.1 in
      let f =
        raise_if-eq-ok (outside_unit decimal p.maximum_requested_risk_fraction) not_a_fraction _
          e.1 in
      let g =
        raise_if-eq-ok (outside_unit decimal p.minimum_committee_confidence) not_a_fraction _ f.1 in
      let k =
        raise_if-eq-ok (outside_unit decimal p.minimum_committee_consensus) not_a_fraction _ g.1 in
      rw (← ok-injective k.1) (record {
        version_good = record { not_empty = a.0; stripped = strip-strip p.version };
        maximum_risk = outside_unit-IsFraction p.maximum_requested_risk_fraction f.0;
      })

  -- A decision whose parts are good is returned, with its timestamp in UTC.
  pub validate_risk_decision_returns :
      (d : RiskDecision)
      → IsSymbol d.symbol
      → d.timestamp.zone ≡ fixed
      → (ltb_ℤ d.approved_notional (pos 0) || outside_unit decimal d.approved_risk_fraction) ≡ false
      → IsFraction d.committee_confidence
      → IsFraction d.committee_consensus
      → has_none d.checks ≡ false
      → (is_reject d.action
          && (not (eqb_ℤ d.approved_notional (pos 0))
              || not (eqb_ℤ d.approved_risk_fraction (pos 0))))
        ≡ false
      → IsVersion d.policy_version
      → validate_risk_decision decimal d ≡ ok (record d { timestamp = to_utc d.timestamp })
  unfolding validate_risk_decision required_timestamp
  validate_risk_decision_returns d s z b c n k r v =
      rw
        (
          IsSymbol-required_symbol d.symbol s,
          z,
          b,
          IsFraction-outside_unit d.committee_confidence c,
          IsFraction-outside_unit d.committee_consensus n,
          k,
          r,
          v.stripped,
          v.not_empty,
        )
        refl

  -- What a constructed decision keeps of its arguments.
  pub record SameDecision (d e : RiskDecision) : Type 0 where
    pub same_action : e.action ≡ d.action
    pub same_notional : e.approved_notional ≡ d.approved_notional
    pub same_risk : e.approved_risk_fraction ≡ d.approved_risk_fraction
    pub same_checks : e.checks ≡ d.checks
    pub same_reason : e.primary_reason ≡ d.primary_reason

  pub validate_risk_decision-SameDecision :
      (d : RiskDecision) {e : RiskDecision}
      → validate_risk_decision decimal d ≡ ok e
      → SameDecision d e
  unfolding validate_risk_decision
  validate_risk_decision-SameDecision d h =
      let a = >>=-eq-ok (required_symbol d.symbol) _ h in
      let b = >>=-eq-ok (required_timestamp d.timestamp) _ a.2 in
      let c =
        raise_if-eq-ok
          (ltb_ℤ d.approved_notional (pos 0) || outside_unit decimal d.approved_risk_fraction)
          out_of_bounds _ b.2 in
      let f = raise_if-eq-ok (outside_unit decimal d.committee_confidence) out_of_bounds _ c.1 in
      let g = raise_if-eq-ok (outside_unit decimal d.committee_consensus) out_of_bounds _ f.1 in
      let k = raise_if-eq-ok (has_none d.checks) no_checks _ g.1 in
      let l =
        raise_if-eq-ok
          (is_reject d.action
            && (not (eqb_ℤ d.approved_notional (pos 0))
                || not (eqb_ℤ d.approved_risk_fraction (pos 0))))
          reject_with_exposure _ k.1 in
      let m = raise_if-eq-ok (is_empty (strip d.policy_version)) version_empty _ l.1 in
      rw (← ok-injective m.1) (record {
        same_action = refl;
        same_notional = refl;
        same_risk = refl;
        same_checks = refl;
        same_reason = refl;
      })
