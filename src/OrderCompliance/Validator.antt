-- ===== src/OrderCompliance/Validator.antt =====
-- app/order_compliance/validator.py: `evaluate_order_compliance`. The display texts (the reason and the
-- warnings) are left out, and so is the branch for inputs of a wrong type.
use webull_aitrader.Shared.{
  ◌*◌, Bool, true, false, not, ◌&&◌, ◌||◌, Option, none, some, List, [], ◌∷◌, ◌++◌, any, filter,
  Text, codes, strip, normalize, is_empty, text_eq, is_some, ltb, ℤ, pos, ◌+ℤ◌, ◌-ℤ◌, ltb_ℤ, leb_ℤ,
  eqb_ℤ, min_ℤ, lacks_tzinfo, none_left, Result, ok, ◌>>=◌, Arithmetic, if◌then◌else◌,
}
use webull_aitrader.RiskAdvice.{LegacyRiskDecision}
use webull_aitrader.Orders.Model.{OrderSide, buy, sell, OrderType, market, limit, stop, stop_limit}
use webull_aitrader.Compliance.Lots.{AccountType, cash, margin}
use webull_aitrader.Compliance.Sell.{SellComplianceDecision}
use webull_aitrader.OrderCompliance.{
  TradingSession, regular, extended_hours, ProposedOrder, AccountComplianceState,
  MarketComplianceState, ComplianceLimits, OrderComplianceDecision, CheckName, input_types,
  core_fields, kill_switch, risk_approval, gfv_approval, upstream_quantity, account_freshness,
  market_freshness, symbol_match, symbol_tradable, market_status, market_session, price_rules,
  duplicate_request_id, duplicate_fingerprint, long_position, trade_count, daily_loss,
  position_concentration, gross_exposure,
}
use webull_aitrader.OrderCompliance.Prices.{valid_decimal, floor_whole, validate_prices}
use webull_aitrader.OrderCompliance.Market.{
  MarketFailure, TimeError, out_of_age, validate_market_and_session, label_of, KillSwitchState,
  kill_switch_failure,
}

-- How `format(value.normalize(), "f")` writes a Decimal.
abbrev pub DecimalText : Type 0
DecimalText = ℤ → Text

abbrev pub is_sell : OrderSide → Bool
is_sell sell = true
is_sell buy = false

abbrev pub is_cash : AccountType → Bool
is_cash cash = true
is_cash margin = false

abbrev pub is_in : Text → List Text → Bool
is_in t = any (text_eq t)

-- `_valid_order`
unfoldable pub valid_order : ProposedOrder → Bool
valid_order o =
    not (is_empty (strip o.request_id))
    && not (is_empty (strip o.symbol))
    && ltb_ℤ (pos 0) o.quantity
    && not (lacks_tzinfo o.created_timestamp.zone)

-- `_valid_account`
unfoldable pub valid_account : AccountComplianceState → Bool
valid_account s =
    ltb_ℤ (pos 0) s.account_equity
    && leb_ℤ (pos 0) s.current_symbol_position_quantity
    && leb_ℤ (pos 0) s.current_symbol_market_value
    && leb_ℤ (pos 0) s.current_total_gross_exposure
    && not (lacks_tzinfo s.current_timestamp.zone)

-- `_valid_limits`
unfoldable pub valid_limits : ComplianceLimits → Bool
valid_limits l =
    ltb_ℤ (pos 0) l.maximum_daily_loss_amount
    && ltb_ℤ (pos 0) l.maximum_daily_loss_percent
    && ltb_ℤ (pos 0) l.maximum_position_percent
    && ltb_ℤ (pos 0) l.maximum_gross_exposure_percent
    && ltb 0 l.maximum_trades_per_day
    && leb_ℤ (pos 0) l.maximum_market_status_age_seconds

abbrev pub side_value : OrderSide → Text
side_value buy = codes "BUY"
side_value sell = codes "SELL"

abbrev pub type_value : OrderType → Text
type_value market = codes "MARKET"
type_value limit = codes "LIMIT"
type_value stop = codes "STOP"
type_value stop_limit = codes "STOP_LIMIT"

abbrev pub session_value : TradingSession → Text
session_value regular = codes "REGULAR"
session_value extended_hours = codes "EXTENDED_HOURS"

-- `"|".join(…)`
abbrev pub joined : List Text → Text
joined [] = []
joined (t ∷ []) = t
joined (t ∷ u ∷ rest) = t ++ codes "|" ++ joined (u ∷ rest)

abbrev pub decimal_or_empty : DecimalText → Option ℤ → Text
decimal_or_empty decimal_text none = []
decimal_or_empty decimal_text (some v) = decimal_text v

-- `order_fingerprint`
unfoldable pub order_fingerprint : DecimalText → ProposedOrder → Text
order_fingerprint decimal_text o = joined (
    normalize o.symbol
    ∷ side_value o.side
    ∷ type_value o.order_type
    ∷ decimal_text o.quantity
    ∷ decimal_or_empty decimal_text o.limit_price
    ∷ decimal_or_empty decimal_text o.stop_price
    ∷ session_value o.requested_session
    ∷ [])

-- `_fresh_order_state`
unfoldable pub fresh_order_state :
    ProposedOrder → AccountComplianceState → ComplianceLimits → Result TimeError Bool
fresh_order_state o s l =
    if lacks_tzinfo o.created_timestamp.zone || lacks_tzinfo s.current_timestamp.zone
    then ok false
    else (do
      late ← out_of_age s.current_timestamp o.created_timestamp l.maximum_market_status_age_seconds
      ok (not late))

abbrev pub if_valid : Option ℤ → Option ℤ
if_valid price = if valid_decimal price then price else none

abbrev pub price_for : OrderType → ProposedOrder → MarketComplianceState → Option ℤ
price_for limit o m = if_valid o.limit_price
price_for stop_limit o m = if_valid o.limit_price
price_for stop o m = if_valid o.stop_price
price_for market o m = if_valid m.verified_reference_price

-- `_proposal_price`
abbrev pub proposal_price : ProposedOrder → MarketComplianceState → Option ℤ
proposal_price o m = price_for o.order_type o m

abbrev pub risk_approves : Option LegacyRiskDecision → Bool
risk_approves none = false
risk_approves (some d) = d.approved

abbrev pub approved_sale : Option SellComplianceDecision → ℤ → Bool
approved_sale none quantity = false
approved_sale (some d) quantity = d.approved && eqb_ℤ d.requested_quantity quantity

abbrev pub safe_maximum : ℤ → Option SellComplianceDecision → ℤ
safe_maximum maximum none = pos 0
safe_maximum maximum (some d) = min_ℤ maximum d.safe_sell_quantity

-- The failures with a label.
abbrev pub labelled : (CheckName → Bool) → List MarketFailure → List MarketFailure
labelled is_label = filter (λ f. is_label (label_of f))

abbrev pub is_freshness : CheckName → Bool
is_freshness market_freshness = true
is_freshness _ = false

abbrev pub is_symbol : CheckName → Bool
is_symbol symbol_tradable = true
is_symbol _ = false

abbrev pub is_status : CheckName → Bool
is_status market_status = true
is_status _ = false

abbrev pub is_session : CheckName → Bool
is_session market_session = true
is_session _ = false

abbrev pub names_where : (Bool → Bool) → List (CheckName × Bool) → List CheckName
names_where keep [] = []
names_where keep (c ∷ cs) = let rest = names_where keep cs in if keep c.1 then c.0 ∷ rest else rest

module _ (decimal : Arithmetic) where
  abbrev pub percent_of : ℤ → ℤ → ℤ
  percent_of part whole = decimal.times (decimal.divide part whole) (pos (100 * decimal.scale))

  -- `_daily_loss_ok`
  unfoldable pub daily_loss_ok : AccountComplianceState → ComplianceLimits → Bool
  daily_loss_ok s l =
      let combined = s.current_daily_realized_pnl +ℤ s.current_daily_unrealized_pnl in
      let loss = if ltb_ℤ combined (pos 0) then pos 0 -ℤ combined else pos 0 in
      not (leb_ℤ s.account_equity (pos 0))
      && ltb_ℤ loss l.maximum_daily_loss_amount
      && ltb_ℤ (percent_of loss s.account_equity) l.maximum_daily_loss_percent

  abbrev pub buy_maximum : AccountComplianceState → Option LegacyRiskDecision → Option ℤ → ℤ
  buy_maximum s none price = pos 0
  buy_maximum s (some d) none = pos 0
  buy_maximum s (some d) (some price) =
      if ltb_ℤ d.max_position_percent (pos 0)
      then pos 0
      else floor_whole decimal (
          decimal.divide
            (decimal.divide (decimal.times s.account_equity d.max_position_percent)
              (pos (100 * decimal.scale)))
            price)

  -- `_maximum_quantity`
  unfoldable pub maximum_quantity :
      ProposedOrder
      → AccountComplianceState
      → Option LegacyRiskDecision
      → Option SellComplianceDecision
      → Option ℤ
      → ℤ
  maximum_quantity o s risk gfv price =
      if is_sell o.side
      then (if is_cash s.account_type
          then safe_maximum s.current_symbol_position_quantity gfv
          else s.current_symbol_position_quantity)
      else buy_maximum s risk price

  abbrev pub buy_exposure :
      ProposedOrder → AccountComplianceState → ComplianceLimits → Option ℤ → Bool × Bool
  buy_exposure o s l none = (false, false)
  buy_exposure o s l (some price) = (
    leb_ℤ
        (percent_of (s.current_symbol_market_value +ℤ decimal.times o.quantity price)
          s.account_equity)
        l.maximum_position_percent,
    leb_ℤ
        (percent_of (s.current_total_gross_exposure +ℤ decimal.times o.quantity price)
          s.account_equity)
        l.maximum_gross_exposure_percent,
  )

  -- `_exposure_checks`
  unfoldable pub exposure_checks :
      ProposedOrder → AccountComplianceState → ComplianceLimits → Option ℤ → Bool × Bool
  exposure_checks o s l price =
      if not (ltb_ℤ (pos 0) o.quantity) || not (ltb_ℤ (pos 0) s.account_equity)
      then (false, false)
      else if is_sell o.side
      then (
        leb_ℤ o.quantity s.current_symbol_position_quantity,
        leb_ℤ o.quantity s.current_symbol_position_quantity,
      )
      else buy_exposure o s l price

  module _ (decimal_text : DecimalText) (o : ProposedOrder) (s : AccountComplianceState)
      (m : MarketComplianceState) (l : ComplianceLimits) (k : KillSwitchState)
      (gfv : Option SellComplianceDecision) (risk : Option LegacyRiskDecision) where
    abbrev pub base_valid : Bool
    base_valid = valid_order o && valid_account s && valid_limits l

    abbrev pub is_cash_sell : Bool
    is_cash_sell = is_sell o.side && is_cash s.account_type

    -- `maximum_quantity if base_valid else None`
    abbrev pub maximum : Option ℤ
    maximum = if base_valid then some (maximum_quantity o s risk gfv (proposal_price o m)) else none

    abbrev pub within : Option ℤ → Bool
    within none = false
    within (some v) = ltb_ℤ (pos 0) o.quantity && leb_ℤ o.quantity v

    abbrev pub exposure : Bool × Bool
    exposure = exposure_checks o s l (proposal_price o m)

    -- The checks, in the order in which they are made, from the freshness of the order and the failures
    -- of the market.
    unfoldable pub check_list : Bool → List MarketFailure → List (CheckName × Bool)
    check_list order_is_fresh market_failures =
        (input_types, true)
        ∷ (core_fields, base_valid)
        ∷ (kill_switch, not (is_some (kill_switch_failure k)))
        ∷ (risk_approval, risk_approves risk)
        ∷ (gfv_approval, not is_cash_sell || approved_sale gfv o.quantity)
        ∷ (upstream_quantity, within maximum)
        ∷ (account_freshness, order_is_fresh)
        ∷ (market_freshness, none_left (labelled is_freshness market_failures))
        ∷ (symbol_match, text_eq (normalize o.symbol) (normalize m.symbol))
        ∷ (symbol_tradable, none_left (labelled is_symbol market_failures))
        ∷ (market_status, none_left (labelled is_status market_failures))
        ∷ (market_session, none_left (labelled is_session market_failures))
        ∷ (price_rules, none_left (validate_prices decimal o m.price_tick_size).failures)
        ∷ (duplicate_request_id, not (is_in o.request_id s.open_order_request_ids))
        ∷ (
          duplicate_fingerprint,
          base_valid && not (is_in (order_fingerprint decimal_text o) s.open_order_fingerprints),
        )
        ∷ (
          long_position,
          not (is_sell o.side)
              || (ltb_ℤ (pos 0) o.quantity && leb_ℤ o.quantity s.current_symbol_position_quantity),
        )
        ∷ (trade_count, ltb s.trades_executed_today l.maximum_trades_per_day)
        ∷ (daily_loss, daily_loss_ok s l)
        ∷ (position_concentration, exposure.0)
        ∷ (gross_exposure, exposure.1)
        ∷ []

    abbrev pub decision_of : Bool → List MarketFailure → OrderComplianceDecision
    decision_of order_is_fresh market_failures =
        let checks = check_list order_is_fresh market_failures in
        let prices = validate_prices decimal o m.price_tick_size in
        let failed = names_where not checks in
        record {
          approved = none_left failed;
          request_id = o.request_id;
          checks_passed = names_where (λ b. b) checks;
          checks_failed = failed;
          maximum_compliant_quantity = maximum;
          normalized_limit_price = prices.normalized_limit_price;
          normalized_stop_price = prices.normalized_stop_price;
          lower_valid_tick = prices.lower_valid_tick;
          upper_valid_tick = prices.upper_valid_tick;
        }

    -- `evaluate_order_compliance`
    unfoldable pub evaluate_order_compliance : Result TimeError OrderComplianceDecision
    evaluate_order_compliance = do
      order_is_fresh ← fresh_order_state o s l
      market_failures ← validate_market_and_session o m l s.current_timestamp
      ok (decision_of order_is_fresh market_failures)
