-- ===== src/Witnesses/Samples.antt =====
-- Sample values. Prices and quantities count a unit; the division rounds down, which is one way in
-- which a context can round.
use webull_aitrader.Shared.{
  Arithmetic, Rounding, ◌+ℤ◌, ◌*ℤ◌, pos_part, ◌*◌, ◌/◌, ℕ, ◌/◌, true, none, some, [], ◌∷◌, Text,
  codes, Datetime, fixed, pos, pos_part,
}
use webull_aitrader.Orders.Model.{
  buy, limit, day, new, accepted, partially_filled, OrderRequest, PaperOrder, Fill,
}
use webull_aitrader.Orders.Lifecycle.{FillArgs}
use webull_aitrader.Matching.{MarketQuote, MatchResult}
use webull_aitrader.Book.{OrderBook}
use webull_aitrader.Engine.{EngineState}
use webull_aitrader.Compliance.Lots.{
  PurchaseLot, finite, settled_cash, unsettled_sale_proceeds, cash,
}
use webull_aitrader.Compliance.Sell.{SellRequest, member}

abbrev pub rounding_down : Rounding
rounding_down = record { plus = ◌+ℤ◌; times = ◌*ℤ◌; divide = λ a b. pos (pos_part a / pos_part b) }

abbrev pub clock : ℕ → Datetime
clock n = record { instant = n; day = 738000; zone = fixed }

abbrev pub request : OrderRequest
request = record {
  symbol = codes "AAPL";
  side = buy;
  order_type = limit;
  quantity = pos 10;
  time_in_force = day;
  limit_price = some (pos 200);
  stop_price = none;
  client_order_id = none;
}

abbrev pub fresh : PaperOrder
fresh = record {
  order_id = codes "o1";
  request = request;
  status = new;
  created_at = clock 1;
  updated_at = clock 1;
  filled_quantity = pos 0;
  average_fill_price = none;
  rejection_reason = none;
  fills = [];
}

abbrev pub live : PaperOrder
live = record fresh { status = accepted; updated_at = clock 2 }

abbrev pub args : FillArgs
args = record {
  quantity = pos 4;
  price = pos 150;
  timestamp = clock 3;
  commission = pos 0;
  slippage = pos 0;
  venue = none;
  liquidity_flag = some (codes "TAKER");
  fill_id = codes "f0";
}

abbrev pub first_fill : Fill
first_fill = record {
  fill_id = codes "f0";
  order_id = codes "o1";
  quantity = pos 4;
  price = pos 150;
  timestamp = clock 3;
  commission = pos 0;
  slippage = pos 0;
  venue = none;
  liquidity_flag = some (codes "TAKER");
}

abbrev pub partial : PaperOrder
partial = record live {
  status = partially_filled;
  updated_at = clock 3;
  filled_quantity = pos 4;
  average_fill_price = some (pos 150);
  fills = first_fill ∷ [];
}

abbrev pub quote : MarketQuote
quote = record {
  symbol = codes "AAPL";
  bid_price = pos 140;
  ask_price = pos 150;
  available_volume = pos 4;
  timestamp = clock 3;
  last_trade_price = none;
}

abbrev pub good_match : MatchResult
good_match = record {
  order_id = codes "o1";
  matched = true;
  filled_quantity = pos 4;
  remaining = pos 6;
  execution_price = some (pos 150);
  slippage = pos 0;
  timestamp = clock 3;
  liquidity_flag = some (codes "TAKER");
  reason = none;
}

abbrev pub sample_book : OrderBook
sample_book = (codes "o1", live) ∷ []

abbrev pub fill_names : ℕ → Text
fill_names n = codes "f0"

abbrev pub state : EngineState
state = record { book = sample_book; drawn = 0 }

abbrev pub settled_lot : PurchaseLot
settled_lot = record {
  symbol = codes "AAPL";
  quantity = finite (pos 5);
  purchase_timestamp = clock 1;
  funding_source = settled_cash;
  funding_settlement_date = none;
  remaining_quantity = finite (pos 5);
}

abbrev pub waiting_lot : PurchaseLot
waiting_lot = record settled_lot {
  funding_source = unsettled_sale_proceeds;
  funding_settlement_date = some 738001;
}

abbrev pub sale : SellRequest
sale = record {
  symbol = some (codes "aapl");
  quantity = finite (pos 8);
  account_type = some (member cash);
  timestamp = some (clock 2);
  lots = some (settled_lot ∷ waiting_lot ∷ []);
}

-- Decimals in hundredths, rounded down.
abbrev pub hundredths : Arithmetic
hundredths = record {
  scale = 100;
  times = λ a b. pos (pos_part a * pos_part b / 100);
  divide = λ a b. pos (pos_part a * 100 / pos_part b);
  quantize = λ a. a;
}
