-- ===== src/RiskAdvice/Validator.antt =====
-- app/risk/validator.py: `evaluate_risk`.
use webull_aitrader.Shared.{
  Bool, true, false, not, ◌&&◌, ◌||◌, Option, none, some, List, [], ◌∷◌, ◌++◌, ℤ, pos, ◌-ℤ◌, ltb_ℤ,
  abs_ℤ, none_left, Arithmetic, Result, if◌then◌else◌,
}
use webull_aitrader.RiskAdvice.{
  ResponseAction, buy_action, sell_action, hold_action, AiResponse, MarketSnapshot, RiskLimits,
  RiskWarning, malformed_price, malformed_confidence, invalid_price, confidence_low, stop_required,
  stop_not_positive, target_required, target_not_positive, stop_wrong_side, target_wrong_side,
  ratio_low, atr_unavailable, LegacyRiskDecision, RiskModelError, legacy_risk_decision, outside_of,
}
use webull_aitrader.RiskAdvice.Sizing.{calculate_risk_score, calculate_max_position_percent}

-- `_valid_price` of a finite number
abbrev pub valid_price : ℤ → Bool
valid_price v = ltb_ℤ (pos 0) v

-- `_valid_decimal_price`
abbrev pub valid_decimal_price : Option ℤ → Bool
valid_decimal_price none = false
valid_decimal_price (some v) = ltb_ℤ (pos 0) v

abbrev pub warn_if : Bool → RiskWarning → List RiskWarning
warn_if true warning = warning ∷ []
warn_if false warning = []

-- The warning on a price that is missing or not positive.
abbrev pub price_warnings : RiskWarning → RiskWarning → Option ℤ → List RiskWarning
price_warnings required not_positive none = required ∷ []
price_warnings required not_positive (some v) = warn_if (not (ltb_ℤ (pos 0) v)) not_positive

-- `stop < current if response.action is ResponseAction.BUY else stop > current`
abbrev pub is_below_for_buy : ResponseAction → ℤ → ℤ → Bool
is_below_for_buy buy_action v w = ltb_ℤ v w
is_below_for_buy sell_action v w = ltb_ℤ w v
is_below_for_buy hold_action v w = ltb_ℤ w v

-- `stop_valid` after the test of its side
abbrev pub stop_valid : ResponseAction → ℤ → Option ℤ → Bool
stop_valid action current none = false
stop_valid action current (some stop) = ltb_ℤ (pos 0) stop && is_below_for_buy action stop current

abbrev pub target_valid : ResponseAction → ℤ → Option ℤ → Bool
target_valid action current none = false
target_valid action current (some target) =
    ltb_ℤ (pos 0) target && is_below_for_buy action current target

module _ (decimal : Arithmetic) where
  -- `ratio is None or ratio < limits.minimum_reward_risk_ratio`, of levels that are valid
  abbrev pub ratio_fails : ℤ → RiskLimits → Option ℤ → Option ℤ → Bool
  ratio_fails current limits none target = false
  ratio_fails current limits (some stop) none = false
  ratio_fails current limits (some stop) (some target) =
      let risk = abs_ℤ (current -ℤ stop) in
      let reward = abs_ℤ (target -ℤ current) in
      not (ltb_ℤ (pos 0) risk)
      || ltb_ℤ (decimal.divide reward risk) limits.minimum_reward_risk_ratio

  -- The warnings up to the decision, in the code's order.
  unfoldable pub level_warnings : AiResponse → ℤ → RiskLimits → List RiskWarning
  level_warnings response current limits =
      let stop = response.stop_loss in
      let target = response.take_profit in
      let stop_ok = stop_valid response.action current stop in
      let target_ok = target_valid response.action current target in
      warn_if (ltb_ℤ response.confidence limits.minimum_confidence) confidence_low
      ++ price_warnings stop_required stop_not_positive stop
      ++ price_warnings target_required target_not_positive target
      ++ warn_if (valid_decimal_price stop && not stop_ok) stop_wrong_side
      ++ warn_if (valid_decimal_price target && not target_ok) target_wrong_side
      ++ warn_if (stop_ok && target_ok && ratio_fails current limits stop target) ratio_low

  -- `_rejected`
  abbrev pub rejected_advice : RiskWarning → Result RiskModelError LegacyRiskDecision
  rejected_advice warning = legacy_risk_decision decimal record {
    approved = false;
    risk_score = pos 100;
    max_position_percent = pos 0;
    stop_loss_valid = false;
    take_profit_valid = false;
    warnings = warning ∷ [];
  }

  abbrev pub held_advice : MarketSnapshot → Result RiskModelError LegacyRiskDecision
  held_advice snapshot = legacy_risk_decision decimal record {
    approved = true;
    risk_score = pos 0;
    max_position_percent = pos 0;
    stop_loss_valid = true;
    take_profit_valid = true;
    warnings = warn_if (not (valid_price snapshot.close)) malformed_price;
  }

  abbrev pub atr_warnings : Option ℤ → List RiskWarning
  atr_warnings none = atr_unavailable ∷ []
  atr_warnings (some atr) = []

  -- From the test of the levels on.
  unfoldable pub advice :
      AiResponse → MarketSnapshot → RiskLimits → Result RiskModelError LegacyRiskDecision
  advice response snapshot limits =
      let current = snapshot.close in
      let warnings = level_warnings response current limits in
      let approved = none_left warnings in
      legacy_risk_decision decimal record {
        approved = approved;
        risk_score = calculate_risk_score decimal response.confidence current snapshot.atr_14;
        max_position_percent =
            calculate_max_position_percent decimal approved response.confidence current
              snapshot.atr_14 limits;
        stop_loss_valid = stop_valid response.action current response.stop_loss;
        take_profit_valid = target_valid response.action current response.take_profit;
        warnings = warnings ++ atr_warnings snapshot.atr_14;
      }

  abbrev pub market_advice :
      AiResponse → MarketSnapshot → RiskLimits → Result RiskModelError LegacyRiskDecision
  market_advice response snapshot limits =
      if outside_of (pos 0) (pos 100) response.confidence
      then rejected_advice malformed_confidence
      else if not (valid_price snapshot.close)
      then rejected_advice invalid_price
      else advice response snapshot limits

  abbrev pub advice_for :
      ResponseAction
      → AiResponse
      → MarketSnapshot
      → RiskLimits
      → Result RiskModelError LegacyRiskDecision
  advice_for hold_action response snapshot limits = held_advice snapshot
  advice_for buy_action response snapshot limits = market_advice response snapshot limits
  advice_for sell_action response snapshot limits = market_advice response snapshot limits

  -- `evaluate_risk`
  unfoldable pub evaluate_risk :
      AiResponse → MarketSnapshot → RiskLimits → Result RiskModelError LegacyRiskDecision
  evaluate_risk response snapshot limits = advice_for response.action response snapshot limits
