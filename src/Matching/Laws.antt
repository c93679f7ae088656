-- ===== src/Matching/Laws.antt =====
-- What a match of app/paper_trading/matching_engine.py guarantees: the quantity, the price against
-- the limit, and when an order matches at all.
use webull_aitrader.Shared.{
  ◌≡◌, ◌≢◌, ◌↔◌, ◌⊎◌, inl, inr, refl, true, Option, none, some, ℤ, pos, ◌-ℤ◌, ◌≤ℤ◌, ◌<ℤ◌, normalize,
  Result, ok, err, arith, is_some, ap, eqb_ℤ_iff, Bool-cases, sym, ◌∙◌, if◌then◌else◌, eqb_ℤ, leb_ℤ,
  codes, text_eq_iff, ◌>>=◌, ok-injective,
}
use mathlib.Core.Path.{subst}
use webull_aitrader.Orders.Model.{
  OrderSide, buy, sell, OrderType, market, limit, OrderRequest, PaperOrder, remaining_quantity,
}
use webull_aitrader.Orders.Requests.{PricesFit}
use webull_aitrader.Orders.Lifecycle.{is_fillable}
use webull_aitrader.Matching.{
  MatchError, MarketQuote, MatchResult, match_order, execution_price, result_at, no_match,
}

-- The price at which the side trades: a buyer pays the ask, a seller gets the bid.
abbrev pub side_price : OrderSide → ℤ → ℤ → ℤ
side_price buy bid ask = ask
side_price sell bid ask = bid

-- A price that the order accepts.
abbrev pub Accepts : OrderSide → OrderType → Option ℤ → ℤ → Type 0
Accepts side market l price = Unit {0}
Accepts buy limit (some l) price = price ≤ℤ l
Accepts sell limit (some l) price = l ≤ℤ price
Accepts _ _ _ price = ⊥

execution_price_fits :
    (side : OrderSide) (t : OrderType) (l : Option ℤ) (bid ask : ℤ) {p : ℤ}
    → execution_price side t l bid ask ≡ ok (some p)
    → Accepts side t l p × (p ≡ side_price side bid ask)
unfolding execution_price
execution_price_fits buy market l bid ask h = (tt, ground arith)
execution_price_fits buy limit none bid ask h = cc
execution_price_fits buy limit (some l) bid ask h = ground arith
execution_price_fits sell market l bid ask h = (tt, ground arith)
execution_price_fits sell limit none bid ask h = cc
execution_price_fits sell limit (some l) bid ask h = ground arith
execution_price_fits _ _ l bid ask h = cc

-- What a result that matched says of the order and the quote.
pub record GoodMatch (o : PaperOrder) (q : MarketQuote) (r : MatchResult) : Type 0 where
  pub same_id : r.order_id ≡ o.order_id
  pub same_time : r.timestamp ≡ q.timestamp
  pub fillable : is_fillable o.status ≡ true
  pub quantity_positive : pos 0 <ℤ r.filled_quantity
  pub within_remaining : r.filled_quantity ≤ℤ remaining_quantity o
  pub within_volume : r.filled_quantity ≤ℤ q.available_volume
  pub exhausts :
      (r.filled_quantity ≡ remaining_quantity o) ⊎ (r.filled_quantity ≡ q.available_volume)
  pub left_over : r.remaining ≡ remaining_quantity o -ℤ r.filled_quantity
  pub price_is_market : r.execution_price ≡ some (side_price o.request.side q.bid_price q.ask_price)
  pub price_accepted :
      Accepts o.request.side o.request.order_type o.request.limit_price
        (side_price o.request.side q.bid_price q.ask_price)

matched_step :
    (o : PaperOrder) (q : MarketQuote) (x : Result MatchError (Option ℤ)) {r : MatchResult}
    → (x >>= λ p. ok (result_at o q p)) ≡ ok r
    → r.matched ≡ true
    → (p : ℤ) × (x ≡ ok (some p)) × (result_at o q (some p) ≡ r)
matched_step o q (ok none) h m = cc
matched_step o q (ok (some p)) h m = (p, refl, ok-injective h)
matched_step o q (err e) h m = cc

-- A matched result has passed the guards, and comes from the price step.
match_order-passed :
    (o : PaperOrder) (q : MarketQuote) {r : MatchResult}
    → match_order o q ≡ ok r
    → r.matched ≡ true
    → (is_fillable o.status ≡ true)
      × (pos 0 <ℤ remaining_quantity o)
      × (q.available_volume ≢ pos 0)
      × ((execution_price o.request.side o.request.order_type o.request.limit_price q.bid_price
              q.ask_price
            >>= λ p. ok (result_at o q p))
          ≡ ok r)
unfolding match_order
match_order-passed o q h m = ground arith

GoodMatch-at :
    (o : PaperOrder) (q : MarketQuote) (p : ℤ)
    → is_fillable o.status ≡ true
    → pos 0 <ℤ remaining_quantity o
    → pos 0 ≤ℤ q.available_volume
    → q.available_volume ≢ pos 0
    → Accepts o.request.side o.request.order_type o.request.limit_price p
      × (p ≡ side_price o.request.side q.bid_price q.ask_price)
    → GoodMatch o q (result_at o q (some p))
GoodMatch-at o q p fillable positive volume some_volume (accepts, at_market) = record {
  same_id = refl;
  same_time = refl;
  fillable = fillable;
  quantity_positive = ground arith;
  within_remaining = ground arith;
  within_volume = ground arith;
  exhausts = ground arith;
  left_over = refl;
  price_is_market = ap some at_market;
  price_accepted = rw (← at_market) accepts;
}

-- A result that matched has the market price of the order's side, which the order's limit accepts,
-- and a positive quantity: the smaller of what remains and the quoted volume. What is left over
-- is the remainder less that quantity.
pub match_order-GoodMatch :
    (o : PaperOrder) (q : MarketQuote) {r : MatchResult}
    → pos 0 ≤ℤ q.available_volume
    → match_order o q ≡ ok r
    → r.matched ≡ true
    → GoodMatch o q r
match_order-GoodMatch o q v h m =
    let (fillable, positive, some_volume, tail) = match_order-passed o q h m in
    let (p, at, same) = matched_step o q _ tail m in
    subst (GoodMatch o q) same (
      GoodMatch-at o q p fillable positive v some_volume (
        execution_price_fits o.request.side o.request.order_type o.request.limit_price q.bid_price
          q.ask_price at))

-- An order that may be matched against the quote: the symbols agree, it is accepted or partially
-- filled, and something remains.
pub record CanMatch (o : PaperOrder) (q : MarketQuote) : Type 0 where
  pub symbols_agree : normalize o.request.symbol ≡ q.symbol
  pub fillable : is_fillable o.status ≡ true
  pub positive : pos 0 <ℤ remaining_quantity o

-- The types that the engine can price.
abbrev pub IsPriceable : OrderRequest → Type 0
IsPriceable r = (r.order_type ≡ market) ⊎ (r.order_type ≡ limit)

abbrev price_of : PaperOrder → MarketQuote → Result MatchError (Option ℤ)
price_of o q =
    execution_price o.request.side o.request.order_type o.request.limit_price q.bid_price
      q.ask_price

match_order_of_CanMatch :
    (o : PaperOrder) (q : MarketQuote)
    → CanMatch o q
    → match_order o q ≡ (
        if eqb_ℤ q.available_volume (pos 0)
        then ok (no_match o q (codes "no available volume"))
        else (price_of o q >>= λ p. ok (result_at o q p)))
unfolding match_order
match_order_of_CanMatch o q c = ground (arith, text_eq_iff (normalize o.request.symbol) q.symbol)

-- What the price step answers for a market order, and for a limit order that has its limit.
priced :
    (side : OrderSide) (t : OrderType) (l s : Option ℤ) (bid ask : ℤ)
    → (t ≡ market) ⊎ (t ≡ limit)
    → PricesFit t l s
    → (x : Option ℤ) × (execution_price side t l bid ask ≡ ok x)
      × ((is_some x ≡ true) ↔ Accepts side t l (side_price side bid ask))
unfolding execution_price
priced buy market l s bid ask h f = (some ask, refl, (λ _. tt, λ _. refl))
priced sell market l s bid ask h f = (some bid, refl, (λ _. tt, λ _. refl))
priced buy limit none s bid ask h f = cc
priced buy limit (some l) s bid ask h f =
    (if leb_ℤ ask l then some ask else none, ground arith, ground arith)
priced sell limit none s bid ask h f = cc
priced sell limit (some l) s bid ask h f =
    (if leb_ℤ l bid then some bid else none, ground arith, ground arith)
priced _ _ l s bid ask h f = absurd (ground arith)

matched-result_at :
    (o : PaperOrder) (q : MarketQuote) (x : Option ℤ) → (result_at o q x).matched ≡ is_some x
matched-result_at o q none = refl
matched-result_at o q (some p) = refl

-- A market or limit order with the prices of its type, which may be matched, always gets a result.
-- It matches exactly if the quote has volume and the order accepts the market price of its side.
pub match_order_decides :
    (o : PaperOrder) (q : MarketQuote)
    → CanMatch o q
    → IsPriceable o.request
    → PricesFit o.request.order_type o.request.limit_price o.request.stop_price
    → (r : MatchResult) × (match_order o q ≡ ok r)
      × ((r.matched ≡ true) ↔ (
          (q.available_volume ≢ pos 0)
          × Accepts o.request.side o.request.order_type o.request.limit_price
              (side_price o.request.side q.bid_price q.ask_price)))
match_order_decides o q c t f =
    let (x, at, accepts) =
      priced o.request.side o.request.order_type o.request.limit_price o.request.stop_price
        q.bid_price q.ask_price t f in
    elim (Bool-cases (eqb_ℤ q.available_volume (pos 0))) [
      | inl empty ↦ (
        no_match o q (codes "no available volume"),
        rw (match_order_of_CanMatch o q c, empty),
        (λ m. cc, λ (h : (q.available_volume ≢ pos 0) × _). absurd (h.0 ((eqb_ℤ_iff _ _).0 empty))),
      )
      | inr full ↦ (
        result_at o q x,
        rw (match_order_of_CanMatch o q c, full, at),
        (
          λ m. (
            λ zero_volume. cc ((eqb_ℤ_iff q.available_volume (pos 0)).1 zero_volume),
            accepts.0 (sym (matched-result_at o q x) ∙ m),
          ),
          λ h. matched-result_at o q x ∙ accepts.1 h.1,
        ),
      )
    ]
