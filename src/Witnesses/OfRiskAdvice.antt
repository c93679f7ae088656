-- ===== src/Witnesses/OfRiskAdvice.antt =====
-- The theorem on the advisory validator, at a purchase under the default limits, in hundredths.
use webull_aitrader.Shared.{◌≡◌, refl, some, pos, ◌*ℤ◌, arith, ok}
use webull_aitrader.Witnesses.Samples.{hundredths}
use webull_aitrader.RiskAdvice.{
  AiResponse, MarketSnapshot, RiskLimits, LegacyRiskDecision, buy_action,
}
use webull_aitrader.RiskAdvice.Validator.{evaluate_risk}
use webull_aitrader.RiskAdvice.Percent.{Percentages}
use webull_aitrader.RiskAdvice.Sound.{GoodAdvice, evaluate_risk-GoodAdvice}

abbrev purchase_advice : AiResponse
purchase_advice = record {
  action = buy_action;
  confidence = pos 80;
  stop_loss = some (pos 900);
  take_profit = some (pos 1300);
}

abbrev snapshot : MarketSnapshot
snapshot = record { close = pos 1000; atr_14 = some (pos 20) }

-- `DEFAULT_RISK_LIMITS`
abbrev default_risk_limits : RiskLimits
default_risk_limits = record {
  minimum_confidence = pos 70;
  minimum_reward_risk_ratio = pos 200;
  maximum_position_percent = pos 500;
  missing_atr_position_percent = pos 250;
}

percentages : Percentages hundredths default_risk_limits
unfolding ◌*ℤ◌
percentages = record {
  times_not_negative = λ a b ha hb. omega arith;
  quantize_zero = refl;
  quantize_hundred = refl;
  quantize_monotone = λ a b h. h;
  maximum_not_negative = omega arith;
  maximum_at_most = omega arith;
  missing_not_negative = omega arith;
  missing_at_most = omega arith;
}

evaluate_risk-GoodAdvice_example :
    (d : LegacyRiskDecision) × (evaluate_risk hundredths purchase_advice snapshot
        default_risk_limits
      ≡ ok d)
    × GoodAdvice hundredths purchase_advice snapshot default_risk_limits d
evaluate_risk-GoodAdvice_example =
    evaluate_risk-GoodAdvice hundredths purchase_advice snapshot default_risk_limits percentages
