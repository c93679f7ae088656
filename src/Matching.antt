-- ===== src/Matching.antt =====
-- app/paper_trading/matching_engine.py: one order against one top-of-book quote.
pub mod Laws
use webull_aitrader.Shared.{
  Bool, true, false, not, Option, none, some, Text, Datetime, ℤ, pos, ◌-ℤ◌, ltb_ℤ, leb_ℤ, eqb_ℤ,
  min_ℤ, codes, is_empty, normalize, text_eq, lacks_tzinfo, Result, ok, err, ◌>>=◌, ◌>>◌, raise_if,
  if◌then◌else◌,
}
use webull_aitrader.Orders.Model.{
  OrderSide, buy, sell, OrderType, market, limit, stop, stop_limit, PaperOrder, remaining_quantity,
}
use webull_aitrader.Orders.Validate.{given_nonpositive}
use webull_aitrader.Orders.Lifecycle.{is_fillable}

-- `MatchingError`, one constructor for each `raise`.
pub data MatchError : Type 0 where
  symbol_required bid_not_positive ask_not_positive crossed_quote volume_negative : MatchError
  timestamp_naive last_not_positive : MatchError
  symbols_differ not_fillable no_remaining limit_missing unsupported_type : MatchError

pub record MarketQuote : Type 0 where
  pub symbol : Text
  pub bid_price : ℤ
  pub ask_price : ℤ
  pub available_volume : ℤ
  pub timestamp : Datetime
  pub last_trade_price : Option ℤ

-- `MarketQuote.__post_init__`
unfoldable pub validate_quote : MarketQuote → Result MatchError MarketQuote
validate_quote q = do
  raise_if (is_empty (normalize q.symbol)) symbol_required
  raise_if (leb_ℤ q.bid_price (pos 0)) bid_not_positive
  raise_if (leb_ℤ q.ask_price (pos 0)) ask_not_positive
  raise_if (ltb_ℤ q.ask_price q.bid_price) crossed_quote
  raise_if (ltb_ℤ q.available_volume (pos 0)) volume_negative
  raise_if (lacks_tzinfo q.timestamp.zone) timestamp_naive
  raise_if (given_nonpositive q.last_trade_price) last_not_positive
  ok (record q { symbol = normalize q.symbol })

pub record MatchResult : Type 0 where
  pub order_id : Text
  pub matched : Bool
  pub filled_quantity : ℤ
  pub remaining : ℤ
  pub execution_price : Option ℤ
  pub slippage : ℤ
  pub timestamp : Datetime
  pub liquidity_flag : Option Text
  pub reason : Option Text

-- A limit order crosses at `market_price`, or does not; with no limit it raises.
abbrev pub limit_price_at : Option ℤ → (ℤ → Bool) → ℤ → Result MatchError (Option ℤ)
limit_price_at none crosses market_price = err limit_missing
limit_price_at (some l) crosses market_price = if crosses l then ok (some market_price) else ok none

-- `_execution_price`, over the side, the type, the limit and the two prices
unfoldable pub execution_price :
    OrderSide → OrderType → Option ℤ → ℤ → ℤ → Result MatchError (Option ℤ)
execution_price buy market l bid ask = ok (some ask)
execution_price buy limit l bid ask = limit_price_at l (λ p. leb_ℤ ask p) ask
execution_price sell market l bid ask = ok (some bid)
execution_price sell limit l bid ask = limit_price_at l (λ p. leb_ℤ p bid) bid
execution_price _ _ l bid ask = err unsupported_type

-- `_reference_price`
unfoldable pub reference_price : OrderSide → MarketQuote → ℤ
reference_price buy q = elim q.last_trade_price [ none ↦ q.ask_price | some p ↦ p ]
reference_price sell q = elim q.last_trade_price [ none ↦ q.bid_price | some p ↦ p ]

-- `execution_price - reference_price`, turned round for a sale
unfoldable pub slippage_of : OrderSide → ℤ → ℤ → ℤ
slippage_of buy executed reference = executed -ℤ reference
slippage_of sell executed reference = reference -ℤ executed

abbrev pub no_match : PaperOrder → MarketQuote → Text → MatchResult
no_match o q why = record {
  order_id = o.order_id;
  matched = false;
  filled_quantity = pos 0;
  remaining = remaining_quantity o;
  execution_price = none;
  slippage = pos 0;
  timestamp = q.timestamp;
  liquidity_flag = none;
  reason = some why;
}

-- The result at an execution price.
abbrev pub matched_at : PaperOrder → MarketQuote → ℤ → MatchResult
matched_at o q price = record {
  order_id = o.order_id;
  matched = true;
  filled_quantity = min_ℤ (remaining_quantity o) q.available_volume;
  remaining = remaining_quantity o -ℤ min_ℤ (remaining_quantity o) q.available_volume;
  execution_price = some price;
  slippage = slippage_of o.request.side price (reference_price o.request.side q);
  timestamp = q.timestamp;
  liquidity_flag = some (codes "TAKER");
  reason = none;
}

abbrev pub result_at : PaperOrder → MarketQuote → Option ℤ → MatchResult
result_at o q none = no_match o q (codes "order price does not cross the market")
result_at o q (some price) = matched_at o q price

unfoldable pub match_order : PaperOrder → MarketQuote → Result MatchError MatchResult
match_order o q = do
  raise_if (not (text_eq (normalize o.request.symbol) q.symbol)) symbols_differ
  raise_if (not (is_fillable o.status)) not_fillable
  raise_if (leb_ℤ (remaining_quantity o) (pos 0)) no_remaining
  if eqb_ℤ q.available_volume (pos 0) then ok (no_match o q (codes "no available volume")) else do
    price ←
        execution_price o.request.side o.request.order_type o.request.limit_price q.bid_price
          q.ask_price
    ok (result_at o q price)
