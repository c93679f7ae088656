-- ===== src/Witnesses/OfRisk.antt =====
-- The theorems on the risk committee, at a sample request, in hundredths.
use webull_aitrader.Shared.{
  ◌≡◌, ◌↔◌, refl, arith, pos, true, ok, codes, ◌-ℤ◌, ◌+ℤ◌, strip, lstrip, rstrip, upper, text_eq,
  Datetime, fixed, All,
}
use webull_aitrader.Witnesses.Samples.{hundredths}
use webull_aitrader.Risk.{
  CommitteeOpinion, RiskState, RiskPolicy, RiskEvaluationRequest, RiskDecision, bullish, approve,
  modify, symbol_exposure_limit, validate_state, validate_policy, validate_risk_request,
  validate_risk_decision, required_symbol, required_timestamp, to_utc,
}
use webull_aitrader.Risk.Committee.{
  evaluate, choose, checks_of, candidate_of, modification, symbol_capacity, gross_capacity,
  risk_notional, daily_loss,
}
use webull_aitrader.Risk.Checks.{Passed}
use webull_aitrader.Risk.Bounds.{WithinLimits, evaluate-WithinLimits}
use webull_aitrader.Risk.Decides.{evaluate_returns, evaluate-approve_iff}

abbrev noon : Datetime
noon = record { instant = 3000; day = 1; zone = fixed }

abbrev opinion : CommitteeOpinion
opinion = record {
  symbol = codes "AAPL";
  timestamp = noon;
  action = bullish;
  confidence = pos 80;
  consensus = pos 75;
}

abbrev state : RiskState
state = record {
  symbol = codes "AAPL";
  timestamp = noon;
  account_equity = pos 1000000;
  available_buying_power = pos 400000;
  current_symbol_exposure = pos 40000;
  total_gross_exposure = pos 100000;
  daily_realized_pnl = pos 0;
  daily_unrealized_pnl = pos 0;
  current_drawdown_fraction = pos 2;
  open_positions = 1;
  open_orders = 0;
}

abbrev policy : RiskPolicy
policy = record {
  version = codes "v1";
  maximum_symbol_exposure_fraction = pos 10;
  maximum_gross_exposure_fraction = pos 50;
  maximum_daily_loss_fraction = pos 3;
  maximum_drawdown_fraction = pos 10;
  maximum_requested_risk_fraction = pos 1;
  minimum_committee_confidence = pos 20;
  minimum_committee_consensus = pos 50;
  maximum_open_positions = 10;
  maximum_open_orders = 10;
  allow_modification = true;
}

abbrev request : RiskEvaluationRequest
request = record {
  committee_opinion = opinion;
  risk_state = state;
  requested_notional = pos 90000;
  requested_risk_fraction = pos 1;
  timestamp = noon;
}

abbrev reduced : RiskDecision
reduced = record {
  symbol = codes "AAPL";
  timestamp = noon;
  action = modify;
  approved_notional = pos 60000;
  approved_risk_fraction = pos 1;
  committee_action = bullish;
  committee_confidence = pos 80;
  committee_consensus = pos 75;
  primary_reason = symbol_exposure_limit;
  checks = checks_of hundredths policy request;
  policy_version = codes "v1";
}

policy_valid : validate_policy hundredths policy ≡ ok policy
unfolding validate_policy strip lstrip rstrip
policy_valid = refl

state_valid : validate_state hundredths state ≡ ok state
unfolding validate_state required_symbol required_timestamp to_utc strip lstrip rstrip upper text_eq
state_valid = refl

request_valid : validate_risk_request hundredths request ≡ ok request
unfolding validate_risk_request required_timestamp to_utc text_eq
request_valid = refl

reducing : evaluate hundredths policy request ≡ ok reduced
unfolding evaluate choose checks_of candidate_of modification validate_risk_decision required_symbol
    required_timestamp to_utc strip lstrip rstrip upper text_eq symbol_capacity gross_capacity
    risk_notional daily_loss ◌-ℤ◌ ◌+ℤ◌
reducing = refl

evaluate-WithinLimits_example : WithinLimits hundredths policy request reduced
evaluate-WithinLimits_example =
    evaluate-WithinLimits hundredths policy policy state request request policy_valid state_valid
      request_valid reducing

evaluate_returns_example : (d : RiskDecision) × (evaluate hundredths policy request ≡ ok d)
evaluate_returns_example =
    evaluate_returns hundredths policy policy state request request policy_valid state_valid
      request_valid (omega arith, omega arith) (omega arith, omega arith)

evaluate-approve_iff_example :
    (reduced.action ≡ approve) ↔ All Passed (checks_of hundredths policy request)
evaluate-approve_iff_example = evaluate-approve_iff hundredths policy request reducing
