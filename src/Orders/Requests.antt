-- ===== src/Orders/Requests.antt =====
-- What the validation of an order request in app/paper_trading/order_models.py means.
use webull_aitrader.Shared.{
  ◌≡◌, ◌↔◌, true, false, Option, none, some, ℤ, pos, ◌<ℤ◌, is_empty, normalize, ok, is_some, arith,
  leb_ℤ, raise_if-eq-ok, >>-eq-ok, ok-injective,
}
use webull_aitrader.Orders.Model.{OrderType, market, limit, stop, stop_limit, OrderRequest}
use webull_aitrader.Orders.Validate.{validate_request, validate_order_prices, strip_or_none}

-- A type has exactly the prices that it needs.
abbrev pub PricesFit : OrderType → Option ℤ → Option ℤ → Type 0
PricesFit market l s = (l ≡ none) × (s ≡ none)
PricesFit limit l s = (is_some l ≡ true) × (s ≡ none)
PricesFit stop l s = (l ≡ none) × (is_some s ≡ true)
PricesFit stop_limit l s = (is_some l ≡ true) × (is_some s ≡ true)

-- A price that is given is positive.
abbrev pub PositiveIfGiven : Option ℤ → Type 0
PositiveIfGiven none = Unit {0}
PositiveIfGiven (some p) = pos 0 <ℤ p

prices_iff :
    (t : OrderType) (l s : Option ℤ)
    → (validate_order_prices t l s ≡ ok tt)
      ↔ (PositiveIfGiven l × PositiveIfGiven s × PricesFit t l s)
unfolding validate_order_prices
prices_iff market l s = ground arith
prices_iff limit l s = ground arith
prices_iff stop l s = ground arith
prices_iff stop_limit l s = ground arith

abbrev pub normalized_request : OrderRequest → OrderRequest
normalized_request r = record r {
  symbol = normalize r.symbol;
  client_order_id = strip_or_none r.client_order_id;
}

positive_of_test : (q : ℤ) → leb_ℤ q (pos 0) ≡ false → pos 0 <ℤ q
positive_of_test q h = ground arith

test_of_positive : (q : ℤ) → pos 0 <ℤ q → leb_ℤ q (pos 0) ≡ false
test_of_positive q h = ground arith

-- A request is accepted exactly if its symbol is not blank, its quantity is positive, the prices
-- that are given are positive and they are those that its type needs. What comes out is the
-- request with its texts normalised.
pub validate_request_iff :
    (r : OrderRequest) (r' : OrderRequest)
    → (validate_request r ≡ ok r') ↔ (
        (is_empty (normalize r.symbol) ≡ false)
        × (pos 0 <ℤ r.quantity)
        × PositiveIfGiven r.limit_price
        × PositiveIfGiven r.stop_price
        × PricesFit r.order_type r.limit_price r.stop_price
        × (normalized_request r ≡ r'))
unfolding validate_request
validate_request_iff r r' = (
  λ h.
      let a = raise_if-eq-ok _ _ _ h in
      let b = raise_if-eq-ok _ _ _ a.1 in
      let c = >>-eq-ok _ _ b.1 in
      let prices = (prices_iff r.order_type r.limit_price r.stop_price).0 c.0 in
      (a.0, positive_of_test r.quantity b.0, prices.0, prices.1, prices.2, ok-injective c.1),
  λ (present, positive, l, s, fit, same). rw (
    present,
    test_of_positive r.quantity positive,
    (prices_iff r.order_type r.limit_price r.stop_price).1 (l, s, fit),
    same,
  ),
)
