-- ===== src/Risk/Committee.antt =====
-- app/risk/committee.py: `RiskCommittee.evaluate`.
use webull_aitrader.Shared.{
  Bool, true, false, not, ◌||◌, ◌&&◌, List, [], ◌∷◌, filter, ℤ, pos, ◌+ℤ◌, ◌-ℤ◌, ltb_ℤ, leb_ℤ,
  min_ℤ, max_ℤ, ltb, Result, ok, err, ◌>>=◌, Arithmetic, if◌then◌else◌,
}
use webull_aitrader.Risk.{
  RiskDecisionAction, approve, modify, reject, RiskReasonCode, approved, neutral_committee,
  zero_requested_notional, insufficient_buying_power, symbol_exposure_limit, gross_exposure_limit,
  daily_loss_limit, drawdown_limit, open_position_limit, open_order_limit, requested_risk_limit,
  committee_confidence_too_low, committee_consensus_too_low, multiple_limits, RiskError,
  index_error, RiskState, RiskPolicy, RiskEvaluationRequest, Shown, amount, count, action_value,
  directional, RiskLimitCheck, RiskDecision, is_neutral, has_none, validate_risk_decision,
}

abbrev pub check : RiskReasonCode → Bool → Shown → Shown → Bool → RiskLimitCheck
check code passed observed limit blocking = record {
  code = code;
  passed = passed;
  observed = observed;
  limit = limit;
  blocking = blocking;
}

-- `_capacity_check`
abbrev pub capacity_check : RiskReasonCode → ℤ → ℤ → RiskLimitCheck
capacity_check code requested capacity =
    check code (leb_ℤ requested capacity) (amount requested) (amount capacity)
      (not (leb_ℤ requested capacity) && leb_ℤ capacity (pos 0))

abbrev pub blocks : RiskLimitCheck → Bool
blocks c = not c.passed && c.blocking

abbrev pub reduces : RiskLimitCheck → Bool
reduces c = not c.passed && not c.blocking

-- `MULTIPLE_LIMITS if len(failed) > 1 else failed[0].code`
abbrev pub primary_of : List RiskLimitCheck → Result RiskError RiskReasonCode
primary_of [] = err index_error
primary_of (c ∷ []) = ok c.code
primary_of (c ∷ d ∷ rest) = ok multiple_limits

-- `reductions[0].code`
abbrev pub first_code : List RiskLimitCheck → Result RiskError RiskReasonCode
first_code [] = err index_error
first_code (c ∷ rest) = ok c.code

module _ (decimal : Arithmetic) where
  unfoldable pub daily_loss : RiskState → ℤ
  daily_loss s =
      max_ℤ (pos 0) (
        decimal.divide (pos 0 -ℤ (s.daily_realized_pnl +ℤ s.daily_unrealized_pnl)) s.account_equity)

  unfoldable pub symbol_capacity : RiskPolicy → RiskState → ℤ
  symbol_capacity p s = max_ℤ (pos 0) (
      decimal.times s.account_equity p.maximum_symbol_exposure_fraction
      -ℤ s.current_symbol_exposure)

  unfoldable pub gross_capacity : RiskPolicy → RiskState → ℤ
  gross_capacity p s =
      max_ℤ (pos 0)
        (decimal.times s.account_equity p.maximum_gross_exposure_fraction -ℤ s.total_gross_exposure)

  -- `checks`
  unfoldable pub checks_of : RiskPolicy → RiskEvaluationRequest → List RiskLimitCheck
  checks_of p q =
      let o = q.committee_opinion in
      let s = q.risk_state in
      check neutral_committee (not (is_neutral o.action)) (action_value o.action) directional true
      ∷ check zero_requested_notional (is_neutral o.action || ltb_ℤ (pos 0) q.requested_notional)
          (amount q.requested_notional) (amount (pos 0)) true
      ∷ check committee_confidence_too_low (leb_ℤ p.minimum_committee_confidence o.confidence)
          (amount o.confidence) (amount p.minimum_committee_confidence) true
      ∷ check committee_consensus_too_low (leb_ℤ p.minimum_committee_consensus o.consensus)
          (amount o.consensus) (amount p.minimum_committee_consensus) true
      ∷ check requested_risk_limit
          (leb_ℤ q.requested_risk_fraction p.maximum_requested_risk_fraction)
          (amount q.requested_risk_fraction) (amount p.maximum_requested_risk_fraction) false
      ∷ check daily_loss_limit (ltb_ℤ (daily_loss s) p.maximum_daily_loss_fraction)
          (amount (daily_loss s)) (amount p.maximum_daily_loss_fraction) true
      ∷ check drawdown_limit (ltb_ℤ s.current_drawdown_fraction p.maximum_drawdown_fraction)
          (amount s.current_drawdown_fraction) (amount p.maximum_drawdown_fraction) true
      ∷ check open_position_limit (ltb s.open_positions p.maximum_open_positions)
          (count s.open_positions) (count p.maximum_open_positions) true
      ∷ check open_order_limit (ltb s.open_orders p.maximum_open_orders) (count s.open_orders)
          (count p.maximum_open_orders) true
      ∷ capacity_check insufficient_buying_power q.requested_notional s.available_buying_power
      ∷ capacity_check symbol_exposure_limit q.requested_notional (symbol_capacity p s)
      ∷ capacity_check gross_exposure_limit q.requested_notional (gross_capacity p s)
      ∷ []

  -- `approved_risk`, before a rejection resets it
  abbrev pub approved_risk : RiskPolicy → RiskEvaluationRequest → ℤ
  approved_risk p q = min_ℤ q.requested_risk_fraction p.maximum_requested_risk_fraction

  unfoldable pub risk_notional : RiskPolicy → RiskEvaluationRequest → ℤ
  risk_notional p q =
      if ltb_ℤ p.maximum_requested_risk_fraction q.requested_risk_fraction
      then decimal.times q.requested_notional
          (decimal.divide (approved_risk p q) q.requested_risk_fraction)
      else q.requested_notional

  -- `candidate`
  unfoldable pub candidate_of : RiskPolicy → RiskEvaluationRequest → ℤ
  candidate_of p q =
      min_ℤ
        (min_ℤ
          (min_ℤ (min_ℤ q.requested_notional q.risk_state.available_buying_power)
            (symbol_capacity p q.risk_state))
          (gross_capacity p q.risk_state))
        (risk_notional p q)

  abbrev pub decision :
      RiskPolicy
      → RiskEvaluationRequest
      → List RiskLimitCheck
      → RiskDecisionAction
      → ℤ
      → ℤ
      → RiskReasonCode
      → RiskDecision
  decision p q checks action notional risk primary = record {
    symbol = q.risk_state.symbol;
    timestamp = q.timestamp;
    action = action;
    approved_notional = notional;
    approved_risk_fraction = risk;
    committee_action = q.committee_opinion.action;
    committee_confidence = q.committee_opinion.confidence;
    committee_consensus = q.committee_opinion.consensus;
    primary_reason = primary;
    checks = checks;
    policy_version = p.version;
  }

  -- The three branches.
  unfoldable pub rejection :
      RiskPolicy
      → RiskEvaluationRequest
      → List RiskLimitCheck
      → List RiskLimitCheck
      → Result RiskError RiskDecision
  rejection p q checks failed = do
    primary ← primary_of failed
    validate_risk_decision decimal (decision p q checks reject (pos 0) (pos 0) primary)

  unfoldable pub modification :
      RiskPolicy
      → RiskEvaluationRequest
      → List RiskLimitCheck
      → List RiskLimitCheck
      → ℤ
      → Result RiskError RiskDecision
  modification p q checks reductions candidate = do
    primary ← first_code reductions
    validate_risk_decision decimal
        (decision p q checks modify candidate (approved_risk p q) primary)

  unfoldable pub approval :
      RiskPolicy → RiskEvaluationRequest → List RiskLimitCheck → Result RiskError RiskDecision
  approval p q checks =
      validate_risk_decision decimal
        (decision p q checks approve q.requested_notional q.requested_risk_fraction approved)

  unfoldable pub choose :
      RiskPolicy → RiskEvaluationRequest → List RiskLimitCheck → ℤ → Result RiskError RiskDecision
  choose p q checks candidate =
      let blockers = filter blocks checks in
      let reductions = filter reduces checks in
      if not (has_none blockers)
        || (not (has_none reductions) && not p.allow_modification)
        || leb_ℤ candidate (pos 0)
      then rejection p q checks (if has_none blockers then reductions else blockers)
      else if not (has_none reductions)
      then modification p q checks reductions candidate
      else approval p q checks

  -- `RiskCommittee.evaluate`
  unfoldable pub evaluate : RiskPolicy → RiskEvaluationRequest → Result RiskError RiskDecision
  evaluate p q = choose p q (checks_of p q) (candidate_of p q)
