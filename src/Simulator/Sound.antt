-- ===== src/Simulator/Sound.antt =====
-- About the soundness of the portfolio that `apply_fill` in app/paper_trading/portfolio.py returns.
use webull_aitrader.Shared.{
  ◌≡◌, refl, sym, Bool, false, not, ◌||◌, ◌&&◌, inl, inr, Option, none, some, List, [], ◌∷◌, Text,
  normalize, text_eq, All, ℤ, pos, ◌+ℤ◌, ◌-ℤ◌, ◌≤ℤ◌, ◌<ℤ◌, ltb_ℤ, lookup, int_laws, -ℤ_parts,
  Bool-cases, ok, >>=-eq-ok, raise_if-eq-ok, ok-injective, Datetime, lacks_tzinfo, Arithmetic,
  arith,
}
use mathlib.Core.Path.{subst}
use webull_aitrader.Orders.Model.{OrderSide, buy, sell}
use webull_aitrader.Simulator.{
  PaperPosition, PaperPortfolio, FillEffect, fill_malformed, insufficient_cash, exceeds_position,
  by_symbol, quantity_of, buy_effect, sell_effect, fill_effect, apply_portfolio_fill,
  create_portfolio, portfolio_malformed,
}
use webull_aitrader.Simulator.Positions.{position_of, Ascending-Distinct}
use webull_aitrader.Simulator.Portfolio.{
  GoodPosition, IsPortfolio, ordered-Ascending, ordered-GoodPosition, lookup_found,
}

rest_nonnegative : (a b : ℤ) → ltb_ℤ a b ≡ false → pos 0 ≤ℤ a -ℤ b
rest_nonnegative a b h = ground (arith, -ℤ_parts a b)

sum_nonnegative : (a b : ℤ) → pos 0 ≤ℤ a → pos 0 <ℤ b → pos 0 ≤ℤ a +ℤ b
sum_nonnegative a b h k = omega int_laws

proceeds_nonnegative : (a b : ℤ) → pos 0 ≤ℤ a → pos 0 ≤ℤ b → pos 0 ≤ℤ a +ℤ b
proceeds_nonnegative a b h k = omega int_laws

weaken : (a : ℤ) → pos 0 <ℤ a → pos 0 ≤ℤ a
weaken a h = omega arith

plus_zero : (a : ℤ) → a ≡ a +ℤ pos 0
plus_zero a = omega int_laws

cash_good : (a : ℤ) (b : Bool) → (ltb_ℤ a (pos 0) || b) ≡ false → pos 0 ≤ℤ a
cash_good a b h = ground arith

pub amounts_positive :
    (a b c : ℤ) (z : Bool)
    → (not (ltb_ℤ (pos 0) a && ltb_ℤ (pos 0) b && ltb_ℤ (pos 0) c) || z) ≡ false
    → (pos 0 <ℤ a) × (pos 0 <ℤ b) × (pos 0 <ℤ c)
amounts_positive a b c z h = ground arith

module _ (decimal : Arithmetic) where
  -- The product of two positive Decimals is not negative.
  abbrev pub TimesNonnegative : Type 0
  TimesNonnegative = (a b : ℤ) → pos 0 <ℤ a → pos 0 <ℤ b → pos 0 ≤ℤ decimal.times a b

  module _ (nonnegative : TimesNonnegative) (cash quantity fill_price : ℤ)
      (some_cash : pos 0 ≤ℤ cash) (some_quantity : pos 0 <ℤ quantity)
      (some_price : pos 0 <ℤ fill_price) where
    buy_effect-bounds :
        (existing : Option PaperPosition) {e : FillEffect}
        → pos 0 ≤ℤ quantity_of existing
        → buy_effect decimal cash existing quantity fill_price ≡ ok e
        → (pos 0 ≤ℤ e.cash) × (pos 0 ≤ℤ e.new_quantity)
    unfolding buy_effect
    buy_effect-bounds existing held h =
        let notional = decimal.times quantity fill_price in
        let a = raise_if-eq-ok (ltb_ℤ cash notional) insufficient_cash _ h in
        rw (← ok-injective a.1) (
          rest_nonnegative cash notional a.0,
          sum_nonnegative (quantity_of existing) quantity held some_quantity,
        )

    sell_effect-bounds :
        (existing : Option PaperPosition) {e : FillEffect}
        → sell_effect decimal cash existing quantity fill_price ≡ ok e
        → (pos 0 ≤ℤ e.cash) × (pos 0 ≤ℤ e.new_quantity)
    unfolding sell_effect
    sell_effect-bounds none h = cc
    sell_effect-bounds (some p) h =
        let a = raise_if-eq-ok (ltb_ℤ p.quantity quantity) exceeds_position _ h in
        rw (← ok-injective a.1) (
          proceeds_nonnegative cash (decimal.times quantity fill_price) some_cash
              (nonnegative quantity fill_price some_quantity some_price),
          rest_nonnegative p.quantity quantity a.0,
        )

    fill_effect-bounds :
        (side : OrderSide) (existing : Option PaperPosition) {e : FillEffect}
        → pos 0 ≤ℤ quantity_of existing
        → fill_effect decimal side cash existing quantity fill_price ≡ ok e
        → (pos 0 ≤ℤ e.cash) × (pos 0 ≤ℤ e.new_quantity)
    unfolding fill_effect
    fill_effect-bounds buy existing held h = buy_effect-bounds existing held h
    fill_effect-bounds sell existing held h = sell_effect-bounds existing h

  held_nonnegative :
      (k : Text) (ps : List PaperPosition)
      → All (GoodPosition decimal) ps
      → pos 0 ≤ℤ quantity_of (position_of k ps)
  unfolding position_of
  held_nonnegative k [] h = omega arith
  held_nonnegative k (p ∷ ps) h = elim (Bool-cases (text_eq k p.symbol)) [
    | inl same ↦ rw same (weaken p.quantity h.0.long)
    | inr other ↦ rw other (held_nonnegative k ps h.1)
  ]

  -- The test of the arguments of a fill.
  abbrev pub malformed : ℤ → ℤ → ℤ → Datetime → Bool
  malformed quantity fill_price mark_price timestamp =
      not (ltb_ℤ (pos 0) quantity && ltb_ℤ (pos 0) fill_price && ltb_ℤ (pos 0) mark_price)
      || lacks_tzinfo timestamp.zone

  pub create_portfolio-IsPortfolio :
      (cash : ℤ) (timestamp : Datetime) {w : PaperPortfolio}
      → create_portfolio cash timestamp ≡ ok w
      → IsPortfolio decimal w
  unfolding create_portfolio
  create_portfolio-IsPortfolio cash timestamp h =
      let a =
        raise_if-eq-ok (ltb_ℤ cash (pos 0) || lacks_tzinfo timestamp.zone) portfolio_malformed _
          h in
      rw (← ok-injective a.1) (record {
        cash_nonnegative = cash_good cash (lacks_tzinfo timestamp.zone) a.0;
        ascending = tt;
        good_positions = tt;
        unrealized_is = refl;
        equity_is = plus_zero cash;
      })

  -- Where products of positive amounts are not negative, a fill that is accepted leaves a sound
  -- portfolio sound: cash not negative, positions long, each symbol once and in order, with market
  -- values, profits and equity those of the positions.
  pub apply_portfolio_fill-IsPortfolio :
      (nonnegative : TimesNonnegative) (w : PaperPortfolio) (symbol : Text) (side : OrderSide)
      (quantity fill_price mark_price : ℤ) (timestamp : Datetime) {w' : PaperPortfolio}
      {realized : ℤ}
      → IsPortfolio decimal w
      → apply_portfolio_fill decimal w symbol side quantity fill_price mark_price timestamp
        ≡ ok (w', realized)
      → IsPortfolio decimal w'
  unfolding apply_portfolio_fill
  apply_portfolio_fill-IsPortfolio nonnegative w symbol side quantity fill_price mark_price
        timestamp good h =
      let key = normalize symbol in
      let a =
        raise_if-eq-ok (malformed quantity fill_price mark_price timestamp) fill_malformed _ h in
      let some_amounts =
        amounts_positive quantity fill_price mark_price (lacks_tzinfo timestamp.zone) a.0 in
      let existing = lookup key (by_symbol [] w.positions) in
      let effect = >>=-eq-ok (fill_effect decimal side w.cash existing quantity fill_price) _ a.1 in
      let distinct = Ascending-Distinct w.positions good.ascending in
      let held : pos 0 ≤ℤ quantity_of existing =
        subst (λ o. pos 0 ≤ℤ quantity_of o)
          (sym (lookup_found decimal w key effect.0 mark_price key distinct))
          (held_nonnegative key w.positions good.good_positions) in
      let bounds =
        fill_effect-bounds nonnegative w.cash quantity fill_price good.cash_nonnegative
          some_amounts.0 some_amounts.1 side existing held effect.1 in
      let made = ok-injective effect.2 in
      subst (λ r. IsPortfolio decimal r.0) made
        (record {
          cash_nonnegative = bounds.0;
          ascending = ordered-Ascending decimal w key effect.0 mark_price;
          good_positions =
              ordered-GoodPosition decimal w key effect.0 mark_price bounds.1 some_amounts.2
                good.good_positions;
          unrealized_is = refl;
          equity_is = refl;
        })
