-- ===== src/OrderCompliance/Market.antt =====
-- app/order_compliance/market_hours.py and kill_switch.py: the market, the session and the kill
-- switch. The texts of failures are constructors.
use webull_aitrader.Shared.{
  ◌-◌, ◌*◌, Bool, true, false, not, ◌&&◌, ◌||◌, Option, none, some, List, [], ◌∷◌, any, Text, strip,
  is_empty, ltb, Result, ok, ◌>>=◌, ◌>>◌, raise_if, is_mixed, timedelta_overflows, ℤ, pos, ltb_ℤ,
  pos_part, Datetime, lacks_tzinfo, if◌then◌else◌,
}
use webull_aitrader.OrderCompliance.{
  TradingSession, regular, extended_hours, MarketStatus, open_market, SymbolStatus, tradable,
  ProposedOrder, MarketComplianceState, ComplianceLimits, CheckName, market_freshness,
  symbol_tradable, market_status, market_session, closed, halted_market, circuit_breaker,
  unknown_market, not_tradable, halted_symbol, unknown_symbol,
}
use webull_aitrader.OrderCompliance.Prices.{is_market}

pub data MarketFailure : Type 0 where
  naive_timestamps stale_status outside_regular extended_disabled : MarketFailure
  outside_extended market_order_in_extended : MarketFailure
  symbol_status_is : SymbolStatus → MarketFailure
  market_status_is : MarketStatus → MarketFailure

abbrev pub market_is_open : MarketStatus → Bool
market_is_open open_market = true
market_is_open closed = false
market_is_open halted_market = false
market_is_open circuit_breaker = false
market_is_open unknown_market = false

abbrev pub is_tradable : SymbolStatus → Bool
is_tradable tradable = true
is_tradable not_tradable = false
is_tradable halted_symbol = false
is_tradable unknown_symbol = false

-- `if test: failures.append(failure)`
abbrev pub when : Bool → MarketFailure → List MarketFailure → List MarketFailure
when true failure rest = failure ∷ rest
when false failure rest = rest

-- The TypeError of timestamps of which only one has an offset, and the OverflowError of a `timedelta`.
pub data TimeError : Type 0 where
  timestamps_mixed age_too_large : TimeError

-- `not start <= now <= end`
unfoldable pub outside : Datetime → Datetime → Datetime → Result TimeError Bool
outside start finish now = do
  raise_if (is_mixed start.zone now.zone) timestamps_mixed
  if ltb now.instant start.instant then ok true else (do
    raise_if (is_mixed now.zone finish.zone) timestamps_mixed
    ok (ltb finish.instant now.instant))

-- `age < timedelta(0) or age > timedelta(seconds=maximum)`
unfoldable pub out_of_age : Datetime → Datetime → ℤ → Result TimeError Bool
out_of_age now since maximum = do
  raise_if (is_mixed now.zone since.zone) timestamps_mixed
  if ltb now.instant since.instant then ok true else (do
    raise_if (timedelta_overflows maximum) age_too_large
    ok (ltb_ℤ maximum (pos 0) || ltb (pos_part maximum * 1000000) (now.instant - since.instant)))

unfoldable pub session_failures :
    TradingSession
    → ProposedOrder
    → MarketComplianceState
    → ComplianceLimits
    → Datetime
    → Result TimeError (List MarketFailure)
session_failures regular order state limits now = do
  closed_now ← outside state.regular_session_open state.regular_session_close now
  ok (when closed_now outside_regular [])
session_failures extended_hours order state limits now = do
  closed_now ← outside state.extended_session_open state.extended_session_close now
  ok (
      when (not limits.allow_extended_hours) extended_disabled (
        when closed_now outside_extended (
          when (is_market order.order_type && not limits.allow_market_orders_in_extended_hours)
            market_order_in_extended [])))

-- `validate_market_and_session`
unfoldable pub validate_market_and_session :
    ProposedOrder
    → MarketComplianceState
    → ComplianceLimits
    → Datetime
    → Result TimeError (List MarketFailure)
validate_market_and_session order state limits now =
    if any (λ t. lacks_tzinfo t.zone)
      (state.regular_session_open ∷ state.regular_session_close ∷ state.extended_session_open
        ∷ state.extended_session_close ∷ state.status_as_of ∷ now ∷ [])
    then ok (naive_timestamps ∷ [])
    else (do
      late ← out_of_age now state.status_as_of limits.maximum_market_status_age_seconds
      session ← session_failures order.requested_session order state limits now
      ok (
          when late stale_status (
            when (not (is_tradable state.symbol_status)) (symbol_status_is state.symbol_status) (
              when (not (market_is_open state.market_status)) (market_status_is state.market_status)
                session))))

-- `_market_failure_label`
abbrev pub label_of : MarketFailure → CheckName
label_of stale_status = market_freshness
label_of (symbol_status_is status) = symbol_tradable
label_of (market_status_is status) = market_status
label_of naive_timestamps = market_session
label_of outside_regular = market_session
label_of extended_disabled = market_session
label_of outside_extended = market_session
label_of market_order_in_extended = market_session

pub record KillSwitchState : Type 0 where
  pub enabled : Bool
  pub reason : Text
  pub activated_timestamp : Option Datetime
  pub activated_by : Text

pub data KillFailure : Type 0 where
  incomplete_metadata invalid_timestamp switched_on : KillFailure

abbrev pub bad_activation : Option Datetime → Bool
bad_activation none = true
bad_activation (some t) = lacks_tzinfo t.zone

-- `kill_switch_failure`
unfoldable pub kill_switch_failure : KillSwitchState → Option KillFailure
kill_switch_failure s =
    if s.enabled
    then (if is_empty (strip s.reason) || is_empty (strip s.activated_by)
        then some incomplete_metadata
        else if bad_activation s.activated_timestamp
        then some invalid_timestamp
        else some switched_on)
    else none
