-- ===== src/Simulator/Filled.antt =====
-- About the evaluations of app/paper_trading/execution.py that fill.
use webull_aitrader.Shared.{
  ◌≡◌, ◌∙◌, refl, ap, Bool, true, false, not, ◌||◌, Option, none, some, text_eq, normalize, ℤ, pos,
  pos_part, ◌*◌, ltb_ℤ, ltb, leb, lacks_tzinfo, sym, is_mixed, timedelta_seconds, Result, ok, is_ok,
  is_ok→ok, ok-injective, raise_if-eq-ok, arith, if◌then◌else◌,
}
use webull_aitrader.Orders.Model.{OrderType, market, limit, stop, stop_limit}
use webull_aitrader.OrderCompliance.{ProposedOrder}
use webull_aitrader.Simulator.Journal.{
  ProposalError, timestamps_mixed, age_too_large, age_malformed, naive_timestamps, quote_stale,
  symbol_mismatch, side_price_required, market_at_quote, limit_required, not_crossed,
  limit_at_quote,
}
use webull_aitrader.Simulator.Execution.{
  evaluation, distance, filled, rejected, not_filled, is_filled, PaperMarketQuote, FillEvaluation,
  positive, or_zero, evaluate_fill, evaluate_aged, evaluate_at, quoted_price, crossed,
}

-- Of a test whose first branch does not fill, the second is left.
last_choice :
    (b : Bool) (x y : FillEvaluation)
    → is_filled x.status ≡ false
    → is_filled (if b then x else y).status ≡ true
    → (b ≡ false) × (is_filled y.status ≡ true) × ((if b then x else y) ≡ y)
last_choice true x y n h = cc
last_choice false x y n h = (refl, h, refl)

positive_some : (o : Option ℤ) → not (positive o) ≡ false → (v : ℤ) × (o ≡ some v)
positive_some none h = cc
positive_some (some v) h = (v, refl)

left_false : (a b : Bool) → (a || b) ≡ false → a ≡ false
left_false a b h = ground arith

-- A filled evaluation has a price.
evaluate_at-filled :
    (t : OrderType) (order : ProposedOrder) (quote : PaperMarketQuote)
    → is_filled (evaluate_at t order quote).status ≡ true
    → (price : ℤ) × ((evaluate_at t order quote).fill_price ≡ some price)
unfolding evaluate_at
evaluate_at-filled market order quote h =
    let price = quoted_price order.side quote in
    let a =
      last_choice (not (positive price)) (evaluation rejected side_price_required none)
        (evaluation filled market_at_quote price) refl h in
    let v = positive_some price a.0 in (v.0, ap (λ e. e.fill_price) a.2 ∙ v.1)
evaluate_at-filled limit order quote h =
    let price = quoted_price order.side quote in
    let end = evaluation filled limit_at_quote price in
    let third =
      if not (crossed order.side (or_zero price) (or_zero order.limit_price))
      then evaluation not_filled not_crossed none
      else end in
    let second =
      if not (positive order.limit_price) then evaluation rejected limit_required none else third in
    let a =
      last_choice (not (positive price)) (evaluation rejected side_price_required none) second refl
        h in
    let b =
      last_choice (not (positive order.limit_price)) (evaluation rejected limit_required none) third
        refl a.1 in
    let c =
      last_choice (not (crossed order.side (or_zero price) (or_zero order.limit_price)))
        (evaluation not_filled not_crossed none) end refl b.1 in
    let v = positive_some price a.0 in (v.0, ap (λ e. e.fill_price) (a.2 ∙ b.2 ∙ c.2) ∙ v.1)
evaluate_at-filled stop order quote h = cc
evaluate_at-filled stop_limit order quote h = cc

evaluate_aged-filled :
    (order : ProposedOrder) (quote : PaperMarketQuote) (age : ℤ)
    → is_filled (evaluate_aged order quote age).status ≡ true
    → (price : ℤ) × ((evaluate_aged order quote age).fill_price ≡ some price)
unfolding evaluate_aged
evaluate_aged-filled order quote age h =
    let end = evaluate_at order.order_type order quote in
    let fourth =
      if not (text_eq (normalize quote.symbol) (normalize order.symbol))
      then evaluation rejected symbol_mismatch none
      else end in
    let late = ltb (pos_part age * 1000000) (distance order.created_timestamp quote.timestamp) in
    let c = last_choice late (evaluation rejected quote_stale none) fourth refl h in
    let d =
      last_choice (not (text_eq (normalize quote.symbol) (normalize order.symbol)))
        (evaluation rejected symbol_mismatch none) end refl c.1 in
    let v = evaluate_at-filled order.order_type order quote d.1 in
    (v.0, ap (λ e. e.fill_price) (c.2 ∙ d.2) ∙ v.1)

either_returns :
    (a b : Bool) (x y z : FillEvaluation)
    → is_ok {E = ProposalError} (if a then ok x else if b then ok y else ok z) ≡ true
either_returns true b x y z = refl
either_returns false true x y z = refl
either_returns false false x y z = refl

not_filled_twice : {P : Type 0} {b c : Bool} → b ≡ c → b ≡ false → c ≡ true → P
not_filled_twice h k l = cc

-- Of a test whose first branch returns a result that is not filled, the second is left.
last_returned :
    (b : Bool) (x : FillEvaluation) (m : Result ProposalError FillEvaluation) {e : FillEvaluation}
    → is_filled x.status ≡ false
    → (if b then ok x else m) ≡ ok e
    → is_filled e.status ≡ true
    → (b ≡ false) × (m ≡ ok e)
last_returned true x m n h f = not_filled_twice (ap (λ y. is_filled y.status) (ok-injective h)) n f
last_returned false x m n h f = (refl, h)

pub evaluate_fill-filled :
    (order : ProposedOrder) (quote : PaperMarketQuote) (age : ℤ) {e : FillEvaluation}
    → evaluate_fill order quote age ≡ ok e
    → is_filled e.status ≡ true
    → (lacks_tzinfo quote.timestamp.zone ≡ false) × (price : ℤ) × (e.fill_price ≡ some price)
unfolding evaluate_fill
evaluate_fill-filled order quote age h f =
    let naive = lacks_tzinfo quote.timestamp.zone || lacks_tzinfo order.created_timestamp.zone in
    let mixed = is_mixed order.created_timestamp.zone quote.timestamp.zone in
    let a = last_returned (ltb_ℤ age (pos 0)) (evaluation rejected age_malformed none) _ refl h f in
    let b = last_returned naive (evaluation rejected naive_timestamps none) _ refl a.1 f in
    let c = raise_if-eq-ok mixed timestamps_mixed _ b.1 in
    let d = raise_if-eq-ok (leb timedelta_seconds (pos_part age)) age_too_large _ c.1 in
    let same = ok-injective d.1 in
    let v = evaluate_aged-filled order quote age (ap (λ y. is_filled y.status) same ∙ f) in
    (
      left_false (lacks_tzinfo quote.timestamp.zone) (lacks_tzinfo order.created_timestamp.zone)
          b.0,
      v.0,
      sym (ap (λ y. y.fill_price) same) ∙ v.1,
    )

pub evaluate_fill_returns :
    (order : ProposedOrder) (quote : PaperMarketQuote) (age : ℤ)
    → is_mixed order.created_timestamp.zone quote.timestamp.zone ≡ false
    → leb timedelta_seconds (pos_part age) ≡ false
    → (e : FillEvaluation) × (evaluate_fill order quote age ≡ ok e)
unfolding evaluate_fill
evaluate_fill_returns order quote age same_kind short = is_ok→ok (evaluate_fill order quote age) (
    rw (same_kind, short)
      (either_returns (ltb_ℤ age (pos 0))
        (lacks_tzinfo quote.timestamp.zone || lacks_tzinfo order.created_timestamp.zone) _ _ _))
