-- ===== src/Witnesses/OfOrderCompliance.antt =====
-- The theorem on the compliance of proposals, at a limit order, in hundredths.
use webull_aitrader.RiskAdvice.{LegacyRiskDecision}
use webull_aitrader.Shared.{
  ◌≢◌, no_offset, ok, err, Result, Bool, ◌≡◌, ◌↔◌, refl, ℕ, [], ◌∷◌, pos, pos_part, true, false,
  some, none, codes, Datetime, fixed, strip, lstrip, rstrip, upper, normalize, text_eq, ◌+ℤ◌, ◌-ℤ◌,
}
use webull_aitrader.Witnesses.Samples.{hundredths}
use webull_aitrader.Orders.Model.{buy, limit}
use webull_aitrader.Compliance.Lots.{cash}
use webull_aitrader.OrderCompliance.{
  ProposedOrder, AccountComplianceState, MarketComplianceState, ComplianceLimits, regular,
  open_market, tradable, OrderComplianceDecision,
}
use webull_aitrader.OrderCompliance.Market.{
  TimeError, KillSwitchState, kill_switch_failure, validate_market_and_session, session_failures,
  outside, out_of_age,
}
use webull_aitrader.OrderCompliance.Prices.{
  validate_prices, limited_prices, check_prices, check_price,
}
use webull_aitrader.OrderCompliance.Validator.{
  DecimalText, evaluate_order_compliance, check_list, valid_order, valid_account, valid_limits,
  fresh_order_state, order_fingerprint, daily_loss_ok, maximum_quantity, exposure_checks,
}
use webull_aitrader.OrderCompliance.Permitted.{Comparable, Permitted, approved_iff}

abbrev second : ℕ → Datetime
second n = record { instant = n; day = 1; zone = fixed }

abbrev decimal_text : DecimalText
decimal_text v = pos_part v ∷ []

abbrev proposal : ProposedOrder
proposal = record {
  request_id = codes "r1";
  symbol = codes "AAPL";
  side = buy;
  order_type = limit;
  quantity = pos 200;
  limit_price = some (pos 1050);
  stop_price = none;
  requested_session = regular;
  created_timestamp = second 50;
}

abbrev account : AccountComplianceState
account = record {
  account_type = cash;
  account_equity = pos 1000000;
  current_daily_realized_pnl = pos 0;
  current_daily_unrealized_pnl = pos 0;
  trades_executed_today = 1;
  open_order_request_ids = [];
  open_order_fingerprints = [];
  current_symbol_position_quantity = pos 0;
  current_symbol_market_value = pos 0;
  current_total_gross_exposure = pos 0;
  current_timestamp = second 60;
}

abbrev market_state : MarketComplianceState
market_state = record {
  symbol = codes "AAPL";
  market_status = open_market;
  symbol_status = tradable;
  regular_session_open = second 10;
  regular_session_close = second 1000;
  extended_session_open = second 0;
  extended_session_close = second 2000;
  price_tick_size = some (pos 1);
  status_as_of = second 55;
  verified_reference_price = none;
}

-- The default limits.
abbrev limits : ComplianceLimits
limits = record {
  maximum_daily_loss_amount = pos 50000;
  maximum_daily_loss_percent = pos 500;
  maximum_trades_per_day = 10;
  maximum_position_percent = pos 1000;
  maximum_gross_exposure_percent = pos 5000;
  maximum_market_status_age_seconds = pos 30;
  allow_extended_hours = false;
  allow_market_orders_in_extended_hours = false;
}

abbrev kill_switch_off : KillSwitchState
kill_switch_off = record {
  enabled = false;
  reason = [];
  activated_timestamp = none;
  activated_by = [];
}

abbrev risk : LegacyRiskDecision
risk = record {
  approved = true;
  risk_score = pos 20;
  max_position_percent = pos 500;
  stop_loss_valid = true;
  take_profit_valid = true;
  warnings = [];
}

fixed_offset : fixed ≢ no_offset
fixed_offset h = cc

comparable :
    Comparable hundredths decimal_text proposal account market_state limits kill_switch_off none
      (some risk)
comparable = record {
  created_offset = fixed_offset;
  session_offsets = (
    fixed_offset,
    (fixed_offset, (fixed_offset, (fixed_offset, (fixed_offset, (fixed_offset, tt))))),
  );
  age_fits = refl;
}

abbrev is_approved : Result TimeError OrderComplianceDecision → Bool
is_approved (ok d) = d.approved
is_approved (err e) = false

approving :
    is_approved (
      evaluate_order_compliance hundredths decimal_text proposal account market_state limits
        kill_switch_off none
        (some risk))
    ≡ true
unfolding evaluate_order_compliance check_list valid_order valid_account valid_limits
    fresh_order_state order_fingerprint daily_loss_ok maximum_quantity exposure_checks
    kill_switch_failure validate_market_and_session session_failures outside out_of_age
    validate_prices limited_prices check_prices check_price strip lstrip rstrip upper normalize
    text_eq ◌+ℤ◌ ◌-ℤ◌
approving = refl

approved_iff_example :
    (d : OrderComplianceDecision) × (evaluate_order_compliance hundredths decimal_text proposal
        account market_state limits kill_switch_off none
        (some risk)
      ≡ ok d)
    × ((d.approved ≡ true)
        ↔ Permitted hundredths decimal_text proposal account market_state limits kill_switch_off
            none
            (some risk))
approved_iff_example =
    approved_iff hundredths decimal_text proposal account market_state limits kill_switch_off none
      (some risk) comparable
