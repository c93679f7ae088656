-- ===== src/Simulator.antt =====
-- app/paper_trading/portfolio.py: the portfolio of the proposal simulator and the fill of a
-- proposal. Decimal fields hold finite values; products and quotients are those of `Arithmetic`.
pub mod Journal
pub mod Execution
pub mod Filled
pub mod Numbered
pub mod Proposal
pub mod Positions
pub mod Portfolio
pub mod Sound
pub mod Ledger
pub mod Runs
pub mod Steps
pub mod Returns
use webull_aitrader.Shared.{
  Bool, true, false, not, ◌&&◌, ◌||◌, Option, none, some, List, [], ◌∷◌, Text, normalize, text_eq,
  ℤ, pos, ◌+ℤ◌, ◌-ℤ◌, ltb_ℤ, leb_ℤ, eqb_ℤ, sum_of, ltb, ◌==◌, Result, ok, err, ◌>>=◌, ◌>>◌,
  raise_if, Datetime, lacks_tzinfo, Dict, lookup, insert, values, Arithmetic, if◌then◌else◌,
}
use webull_aitrader.Orders.Model.{OrderSide, buy, sell}

pub record PaperPosition : Type 0 where
  pub symbol : Text
  pub quantity : ℤ
  pub average_cost : ℤ
  pub current_mark : ℤ
  pub market_value : ℤ
  pub unrealized_pnl : ℤ

pub record PaperPortfolio : Type 0 where
  pub initial_cash : ℤ
  pub cash : ℤ
  pub positions : List PaperPosition
  pub realized_pnl : ℤ
  pub unrealized_pnl : ℤ
  pub equity : ℤ
  pub timestamp : Datetime

pub data FillError : Type 0 where
  portfolio_malformed fill_malformed insufficient_cash exceeds_position : FillError

-- `create_portfolio`
unfoldable pub create_portfolio : ℤ → Datetime → Result FillError PaperPortfolio
create_portfolio initial_cash timestamp = do
  raise_if (ltb_ℤ initial_cash (pos 0) || lacks_tzinfo timestamp.zone) portfolio_malformed
  ok (record {
    initial_cash = initial_cash;
    cash = initial_cash;
    positions = [];
    realized_pnl = pos 0;
    unrealized_pnl = pos 0;
    equity = initial_cash;
    timestamp = timestamp;
  })

-- `{position.symbol: position for position in positions}`, into a dict
unfoldable pub by_symbol : Dict PaperPosition → List PaperPosition → Dict PaperPosition
by_symbol d [] = d
by_symbol d (p ∷ ps) = by_symbol (insert p.symbol p d) ps

-- `positions.pop(key, None)`
unfoldable pub pop : Text → Dict PaperPosition → Dict PaperPosition
pop k [] = []
pop k (e ∷ d) = let rest = pop k d in if text_eq k e.0 then rest else e ∷ rest

-- `t < u` on texts, by code points
unfoldable pub text_ltb : Text → Text → Bool
text_ltb t [] = false
text_ltb [] (d ∷ u) = true
text_ltb (c ∷ t) (d ∷ u) = ltb c d || (c == d && text_ltb t u)

-- `sorted(…, key=lambda item: item.symbol)`
unfoldable pub insert_sorted : PaperPosition → List PaperPosition → List PaperPosition
insert_sorted p [] = p ∷ []
insert_sorted p (q ∷ qs) =
    let rest = insert_sorted p qs in if text_ltb q.symbol p.symbol then q ∷ rest else p ∷ q ∷ qs

unfoldable pub sort_positions : List PaperPosition → List PaperPosition
sort_positions [] = []
sort_positions (p ∷ ps) = insert_sorted p (sort_positions ps)

abbrev pub quantity_of : Option PaperPosition → ℤ
quantity_of none = pos 0
quantity_of (some p) = p.quantity

abbrev pub cost_of : Option PaperPosition → ℤ
cost_of none = pos 0
cost_of (some p) = p.average_cost

-- What a fill decides before it rebuilds the positions.
pub record FillEffect : Type 0 where
  pub new_quantity : ℤ
  pub average_cost : ℤ
  pub cash : ℤ
  pub realized : ℤ

module _ (decimal : Arithmetic) where
  -- `_position`
  abbrev pub position_at : Text → ℤ → ℤ → ℤ → PaperPosition
  position_at symbol quantity average_cost mark = record {
    symbol = symbol;
    quantity = quantity;
    average_cost = average_cost;
    current_mark = mark;
    market_value = decimal.times quantity mark;
    unrealized_pnl = decimal.times (mark -ℤ average_cost) quantity;
  }

  -- The branch of a purchase.
  unfoldable pub buy_effect : ℤ → Option PaperPosition → ℤ → ℤ → Result FillError FillEffect
  buy_effect cash existing quantity fill_price = do
    raise_if (ltb_ℤ cash (decimal.times quantity fill_price)) insufficient_cash
    ok (record {
      new_quantity = quantity_of existing +ℤ quantity;
      average_cost =
          decimal.divide
            (decimal.times (quantity_of existing) (cost_of existing)
              +ℤ decimal.times quantity fill_price)
            (quantity_of existing +ℤ quantity);
      cash = cash -ℤ decimal.times quantity fill_price;
      realized = pos 0;
    })

  -- The branch of a sale.
  unfoldable pub sell_effect : ℤ → Option PaperPosition → ℤ → ℤ → Result FillError FillEffect
  sell_effect cash none quantity fill_price = err exceeds_position
  sell_effect cash (some existing) quantity fill_price = do
    raise_if (ltb_ℤ existing.quantity quantity) exceeds_position
    ok (record {
      new_quantity = existing.quantity -ℤ quantity;
      average_cost = existing.average_cost;
      cash = cash +ℤ decimal.times quantity fill_price;
      realized = decimal.times (fill_price -ℤ existing.average_cost) quantity;
    })

  unfoldable pub fill_effect :
      OrderSide → ℤ → Option PaperPosition → ℤ → ℤ → Result FillError FillEffect
  fill_effect buy = buy_effect
  fill_effect sell = sell_effect

  -- The dict after the fill.
  unfoldable pub changed_positions : Dict PaperPosition → Text → FillEffect → ℤ → Dict PaperPosition
  changed_positions d key e mark =
      if eqb_ℤ e.new_quantity (pos 0)
      then pop key d
      else insert key (position_at key e.new_quantity e.average_cost mark) d

  -- The portfolio that `apply_fill` returns, from the ordered positions.
  abbrev pub filled_portfolio :
      PaperPortfolio → FillEffect → List PaperPosition → Datetime → PaperPortfolio
  filled_portfolio portfolio e ordered timestamp = record {
    initial_cash = portfolio.initial_cash;
    cash = e.cash;
    positions = ordered;
    realized_pnl = portfolio.realized_pnl +ℤ e.realized;
    unrealized_pnl = sum_of (λ p. p.unrealized_pnl) ordered;
    equity = e.cash +ℤ sum_of (λ p. p.market_value) ordered;
    timestamp = timestamp;
  }

  -- `apply_fill` of the portfolio
  unfoldable pub apply_portfolio_fill :
      PaperPortfolio
      → Text
      → OrderSide
      → ℤ
      → ℤ
      → ℤ
      → Datetime
      → Result FillError (PaperPortfolio × ℤ)
  apply_portfolio_fill portfolio symbol side quantity fill_price mark_price timestamp = do
    raise_if
        (not (ltb_ℤ (pos 0) quantity && ltb_ℤ (pos 0) fill_price && ltb_ℤ (pos 0) mark_price)
          || lacks_tzinfo timestamp.zone)
        fill_malformed
    e ←
        fill_effect side portfolio.cash
          (lookup (normalize symbol) (by_symbol [] portfolio.positions)) quantity fill_price
    ok (
      filled_portfolio portfolio e
          (sort_positions (
            values (
              changed_positions (by_symbol [] portfolio.positions) (normalize symbol) e
                mark_price)))
          timestamp,
      e.realized,
    )
