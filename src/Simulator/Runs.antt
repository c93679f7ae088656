-- ===== src/Simulator/Runs.antt =====
-- The account that a portfolio of app/paper_trading/portfolio.py stands for: cash, and the quantity
-- held of each symbol; and a sequence of fills against trades on it.
use webull_aitrader.Shared.{
  ◌≡◌, ◌∙◌, refl, sym, ap, Bool, true, ◌||◌, inl, inr, Option, none, some, List, [], ◌∷◌, Text,
  normalize, text_eq, ℤ, pos, ◌+ℤ◌, ◌-ℤ◌, ◌<ℤ◌, ltb_ℤ, lookup, Bool-cases, Result, ok, err, ◌>>=◌,
  ◌>>◌, raise_if, raise_if-eq-ok, ok-injective, Datetime, lacks_tzinfo, Arithmetic, arith,
  if◌then◌else◌, Result-cases,
}
use webull_aitrader.Orders.Model.{OrderSide, buy, sell}
use webull_aitrader.Simulator.{
  PaperPosition, PaperPortfolio, FillError, FillEffect, portfolio_malformed, fill_malformed,
  insufficient_cash, exceeds_position, by_symbol, quantity_of, buy_effect, sell_effect, fill_effect,
  filled_portfolio, apply_portfolio_fill, create_portfolio,
}
use webull_aitrader.Simulator.Positions.{position_of, Distinct, Ascending-Distinct}
use webull_aitrader.Simulator.Ledger.{lookup-by_symbol}
use webull_aitrader.Simulator.Portfolio.{or_else-none, ordered, quantity_after, IsPortfolio}
use webull_aitrader.Simulator.Sound.{
  malformed, amounts_positive, TimesNonnegative, apply_portfolio_fill-IsPortfolio,
  create_portfolio-IsPortfolio,
}

-- The abstract account.
pub record Account : Type 0 where
  pub cash : ℤ
  pub holding : Text → ℤ

abbrev pub account_of : PaperPortfolio → Account
account_of w = record { cash = w.cash; holding = λ k. quantity_of (position_of k w.positions) }

abbrev pub map_ok : {E A B : Type 0} → (A → B) → Result E A → Result E B
map_ok f (ok a) = ok (f a)
map_ok f (err e) = err e

-- One fill's arguments.
pub record FillOrder : Type 0 where
  pub symbol : Text
  pub side : OrderSide
  pub quantity : ℤ
  pub fill_price : ℤ
  pub mark_price : ℤ
  pub timestamp : Datetime

-- A trade on an account.
unfoldable pub exchange : OrderSide → Account → Text → ℤ → ℤ → Result FillError Account
exchange buy a key quantity notional = do
  raise_if (ltb_ℤ a.cash notional) insufficient_cash
  ok (record {
    cash = a.cash -ℤ notional;
    holding = λ k. if text_eq k key then a.holding key +ℤ quantity else a.holding k;
  })
exchange sell a key quantity notional = do
  raise_if (ltb_ℤ (a.holding key) quantity) exceeds_position
  ok (record {
    cash = a.cash +ℤ notional;
    holding = λ k. if text_eq k key then a.holding key -ℤ quantity else a.holding k;
  })

none_held : (q : ℤ) → pos 0 <ℤ q → ltb_ℤ (pos 0) q ≡ true
none_held q h = ground arith

module _ (decimal : Arithmetic) where
  unfoldable pub trade : Account → FillOrder → Result FillError Account
  trade a f = do
    raise_if (malformed decimal f.quantity f.fill_price f.mark_price f.timestamp) fill_malformed
    exchange f.side a (normalize f.symbol) f.quantity (decimal.times f.quantity f.fill_price)

  unfoldable pub trades : Account → List FillOrder → Result FillError Account
  trades a [] = ok a
  trades a (f ∷ fs) = do next ← trade a f; trades next fs

  abbrev pub fill_once : PaperPortfolio → FillOrder → Result FillError (PaperPortfolio × ℤ)
  fill_once w f =
      apply_portfolio_fill decimal w f.symbol f.side f.quantity f.fill_price f.mark_price
        f.timestamp

  -- The fills one after the other.
  unfoldable pub fills : PaperPortfolio → List FillOrder → Result FillError PaperPortfolio
  fills w [] = ok w
  fills w (f ∷ fs) = do next ← fill_once w f; fills next.0 fs

  module _ (w : PaperPortfolio) (distinct : Distinct w.positions) (key : Text)
      (quantity price mark : ℤ) (timestamp : Datetime) where
    existing : Option PaperPosition
    existing = lookup key (by_symbol [] w.positions)

    found_existing : existing ≡ position_of key w.positions
    unfolding existing
    found_existing =
        lookup-by_symbol key [] w.positions distinct ∙ or_else-none (position_of key w.positions)

    account_after : FillEffect → Account
    account_after e =
        account_of (filled_portfolio decimal w e (ordered decimal w key e mark) timestamp)

    -- The account after an effect, by what it does to the cash and to the quantity of the symbol.
    after_is :
        (e : FillEffect) (cash new_quantity : ℤ)
        → e.cash ≡ cash
        → e.new_quantity ≡ new_quantity
        → account_after e ≡ (record {
          cash = cash;
          holding =
              λ k. if text_eq k key then new_quantity else quantity_of (position_of k w.positions);
        })
    unfolding account_after
    after_is e cash new_quantity same_cash same_quantity = λ i. record {
      cash = same_cash i;
      holding = λ k.
          (quantity_after decimal w key e mark k distinct
              ∙ ap (λ n. if text_eq k key then n else quantity_of (position_of k w.positions))
                  same_quantity)
            i;
    }

    buy_refines :
        map_ok account_after (buy_effect decimal w.cash existing quantity price)
        ≡ exchange buy (account_of w) key quantity (decimal.times quantity price)
    unfolding buy_effect exchange
    buy_refines =
        let notional = decimal.times quantity price in
        elim (Bool-cases (ltb_ℤ w.cash notional)) [
          | inl short ↦ rw short refl
          | inr enough ↦ rw enough (
              ap ok (
                after_is _ (w.cash -ℤ notional)
                  (quantity_of (position_of key w.positions) +ℤ quantity) refl
                  (ap (λ o. quantity_of o +ℤ quantity) (found_existing))))
        ]

    sell_refines_from :
        (o : Option PaperPosition)
        → o ≡ position_of key w.positions
        → pos 0 <ℤ quantity
        → map_ok account_after (sell_effect decimal w.cash o quantity price)
          ≡ exchange sell (account_of w) key quantity (decimal.times quantity price)
    unfolding sell_effect exchange
    sell_refines_from none e some_quantity = rw (← e) (rw (none_held quantity some_quantity) refl)
    sell_refines_from (some p) e some_quantity =
        let held = ap quantity_of e in
        let notional = decimal.times quantity price in
        let over : ℤ → Bool = λ b. ltb_ℤ b quantity in
        elim (Bool-cases (ltb_ℤ p.quantity quantity)) [
          | inl short ↦ rw (short, sym (ap over held) ∙ short) refl
          | inr enough ↦
              rw (enough, sym (ap over held) ∙ enough)
                (ap ok (
                  after_is _ (w.cash +ℤ notional)
                    (quantity_of (position_of key w.positions) -ℤ quantity) refl
                    (ap (λ n. n -ℤ quantity) held)))
        ]

    side_refines :
        (side : OrderSide)
        → pos 0 <ℤ quantity
        → map_ok account_after (fill_effect decimal side w.cash existing quantity price)
          ≡ exchange side (account_of w) key quantity (decimal.times quantity price)
    unfolding fill_effect
    side_refines buy some_quantity = buy_refines
    side_refines sell some_quantity = sell_refines_from existing found_existing some_quantity

  map_bind :
      {A B C : Type 0} (m : Result FillError A) (f : B → C) (g : A → B)
      → map_ok f (m >>= λ a. ok (g a)) ≡ map_ok (λ a. f (g a)) m
  map_bind (ok a) f g = refl
  map_bind (err e) f g = refl

  fill_refines :
      (w : PaperPortfolio) (f : FillOrder)
      → Distinct w.positions
      → map_ok (λ r. account_of r.0) (fill_once w f) ≡ trade (account_of w) f
  unfolding apply_portfolio_fill trade existing account_after
  fill_refines w f distinct =
      let key = normalize f.symbol in
      let bad = malformed decimal f.quantity f.fill_price f.mark_price f.timestamp in
      elim (Bool-cases bad) [
        | inl refused ↦ rw refused refl
        | inr good ↦
            let some_amounts =
              amounts_positive f.quantity f.fill_price f.mark_price (lacks_tzinfo f.timestamp.zone)
                good in
            rw good (
              map_bind
                (fill_effect decimal f.side w.cash (lookup key (by_symbol [] w.positions))
                  f.quantity f.fill_price)
                (λ r. account_of r.0)
                (λ e. (
                  filled_portfolio decimal w e (ordered decimal w key e f.mark_price) f.timestamp,
                  e.realized,
                ))
              ∙ side_refines w distinct key f.quantity f.fill_price f.mark_price f.timestamp f.side
                  some_amounts.0)
      ]

  fills_refine :
      TimesNonnegative decimal
      → (w : PaperPortfolio) (fs : List FillOrder) → IsPortfolio decimal w
      → map_ok account_of (fills w fs) ≡ trades (account_of w) fs
  unfolding fills trades
  fills_refine nonnegative w [] good = refl
  fills_refine nonnegative w (f ∷ fs) good =
      let distinct = Ascending-Distinct w.positions good.ascending in
      rw (← fill_refines w f distinct) (elim (Result-cases (fill_once w f)) [
        | inl made ↦
            let next =
              apply_portfolio_fill-IsPortfolio decimal nonnegative w f.symbol f.side f.quantity
                f.fill_price f.mark_price f.timestamp good made.1 in
            rw made.1 (fills_refine nonnegative made.0.0 fs next)
        | inr failed ↦ rw failed.1 refl
      ])

start_is :
    (initial_cash : ℤ) (timestamp : Datetime) {w : PaperPortfolio}
    → create_portfolio initial_cash timestamp ≡ ok w
    → account_of w ≡ (record { cash = initial_cash; holding = λ k. pos 0 })
unfolding create_portfolio position_of
start_is initial_cash timestamp h =
    let a =
      raise_if-eq-ok (ltb_ℤ initial_cash (pos 0) || lacks_tzinfo timestamp.zone) portfolio_malformed
        _ h in
    rw (← ok-injective a.1) refl

-- Where products of positive amounts are not negative, any sequence of fills on a portfolio that
-- starts with cash alone does what the same trades do on an abstract account, which holds only cash
-- and a quantity for every symbol: the same error at the same fill, or the same account in the end.
pub fills-trades :
    (decimal : Arithmetic)
    → TimesNonnegative decimal
    → (initial_cash : ℤ) (timestamp : Datetime) (fs : List FillOrder) {w : PaperPortfolio}
    → create_portfolio initial_cash timestamp ≡ ok w
    → map_ok account_of (fills decimal w fs)
      ≡ trades decimal (record { cash = initial_cash; holding = λ k. pos 0 }) fs
fills-trades decimal nonnegative initial_cash timestamp fs {w = w} made =
    fills_refine decimal nonnegative w fs
      (create_portfolio-IsPortfolio decimal initial_cash timestamp made)
    ∙ ap (λ a. trades decimal a fs) (start_is initial_cash timestamp made)
