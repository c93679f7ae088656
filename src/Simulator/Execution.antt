-- ===== src/Simulator/Execution.antt =====
-- app/paper_trading/execution.py: the fill of a proposal at a quote.
use webull_aitrader.Shared.{
  ℕ, ◌+◌, ◌-◌, ◌*◌, Bool, true, false, not, ◌||◌, Option, none, some, Text, normalize, text_eq, ℤ,
  pos, pos_part, ltb_ℤ, leb_ℤ, ltb, leb, Datetime, is_mixed, timedelta_seconds, Result, ok, ◌>>◌,
  raise_if, lacks_tzinfo, if◌then◌else◌,
}
use webull_aitrader.Orders.Model.{OrderSide, buy, sell, OrderType, market, limit, stop, stop_limit}
use webull_aitrader.OrderCompliance.{ProposedOrder}
use webull_aitrader.Simulator.Journal.{
  ProposalError, timestamps_mixed, age_too_large, Message, age_malformed, naive_timestamps,
  quote_stale, symbol_mismatch, type_unsupported, side_price_required, market_at_quote,
  limit_required, not_crossed, limit_at_quote,
}

pub data ExecutionStatus : Type 0 where
  filled rejected not_filled : ExecutionStatus

pub record PaperMarketQuote : Type 0 where
  pub symbol : Text
  pub bid : Option ℤ
  pub ask : Option ℤ
  pub last_price : Option ℤ
  pub timestamp : Datetime

pub record FillEvaluation : Type 0 where
  pub status : ExecutionStatus
  pub reason : Message
  pub fill_price : Option ℤ

-- `_positive`
abbrev pub positive : Option ℤ → Bool
positive none = false
positive (some v) = ltb_ℤ (pos 0) v

abbrev pub or_zero : Option ℤ → ℤ
or_zero none = pos 0
or_zero (some v) = v

abbrev pub evaluation : ExecutionStatus → Message → Option ℤ → FillEvaluation
evaluation status reason price = record { status = status; reason = reason; fill_price = price }

-- The quote's price on the side of the order.
abbrev pub quoted_price : OrderSide → PaperMarketQuote → Option ℤ
quoted_price buy quote = quote.ask
quoted_price sell quote = quote.bid

abbrev pub crossed : OrderSide → ℤ → ℤ → Bool
crossed buy price limit_price = leb_ℤ price limit_price
crossed sell price limit_price = leb_ℤ limit_price price

-- `abs(a - b)` in microseconds
abbrev pub distance : Datetime → Datetime → ℕ
distance a b = a.instant - b.instant + (b.instant - a.instant)

-- The rest of `evaluate_fill`, by the type of the order.
unfoldable pub evaluate_at : OrderType → ProposedOrder → PaperMarketQuote → FillEvaluation
evaluate_at market order quote =
    let price = quoted_price order.side quote in
    if not (positive price)
    then evaluation rejected side_price_required none
    else evaluation filled market_at_quote price
evaluate_at limit order quote =
    let price = quoted_price order.side quote in
    if not (positive price)
    then evaluation rejected side_price_required none
    else if not (positive order.limit_price)
    then evaluation rejected limit_required none
    else if not (crossed order.side (or_zero price) (or_zero order.limit_price))
    then evaluation not_filled not_crossed none
    else evaluation filled limit_at_quote price
evaluate_at stop order quote = evaluation rejected type_unsupported none
evaluate_at stop_limit order quote = evaluation rejected type_unsupported none

-- From the comparison of the age on.
unfoldable pub evaluate_aged : ProposedOrder → PaperMarketQuote → ℤ → FillEvaluation
evaluate_aged order quote maximum_quote_age_seconds =
    if ltb (pos_part maximum_quote_age_seconds * 1000000)
      (distance order.created_timestamp quote.timestamp)
    then evaluation rejected quote_stale none
    else if not (text_eq (normalize quote.symbol) (normalize order.symbol))
    then evaluation rejected symbol_mismatch none
    else evaluate_at order.order_type order quote

-- `evaluate_fill`; the configuration is its maximum quote age in seconds
unfoldable pub evaluate_fill :
    ProposedOrder → PaperMarketQuote → ℤ → Result ProposalError FillEvaluation
evaluate_fill order quote maximum_quote_age_seconds =
    if ltb_ℤ maximum_quote_age_seconds (pos 0)
    then ok (evaluation rejected age_malformed none)
    else if lacks_tzinfo quote.timestamp.zone || lacks_tzinfo order.created_timestamp.zone
    then ok (evaluation rejected naive_timestamps none)
    else (do
      raise_if (is_mixed order.created_timestamp.zone quote.timestamp.zone) timestamps_mixed
      raise_if (leb timedelta_seconds (pos_part maximum_quote_age_seconds)) age_too_large
      ok (evaluate_aged order quote maximum_quote_age_seconds))

abbrev pub is_filled : ExecutionStatus → Bool
is_filled filled = true
is_filled rejected = false
is_filled not_filled = false
