-- ===== src/Book.antt =====
-- app/paper_trading/order_book.py: the in-memory store of orders. The dict is its list of entries in
-- insertion order. A method that can raise after it has changed the dict returns the dict too.
pub mod Invariant
pub mod Expiry
use webull_aitrader.Shared.{
  Rounding, ℕ, suc, Bool, true, false, not, ◌&&◌, Option, none, some, List, [], ◌∷◌, ◌++◌, map,
  Text, Datetime, ltb, ◌==◌, filter, length, is_empty, is_some, strip, normalize, text_eq, Result,
  ok, err, ◌>>=◌, ◌>>◌, raise_if, if◌then◌else◌, ℤ, Dict, lookup, insert, values,
}
use webull_aitrader.Orders.Model.{TimeInForce, day, gtc, ioc, PaperOrder, is_terminal, OrderError}
use webull_aitrader.Orders.Validate.{Checked}
use webull_aitrader.Orders.Lifecycle.{cancel_order, expire_order}

-- What the book raises: its own errors, and those of the order transitions.
pub data BookError : Type 0 where
  duplicate not_found created_at_changed stale blank_id blank_symbol : BookError
  order : OrderError → BookError

abbrev pub OrderBook : Type 0
OrderBook = Dict PaperOrder

-- A transition's error, as the caller of the book sees it.
abbrev pub from_order : {A : Type 0} → Checked A → Result BookError A
from_order (ok a) = ok a
from_order (err e) = err (order e)

-- `submit`: the book with the order stored.
unfoldable pub submit : PaperOrder → OrderBook → Result BookError OrderBook
submit o b = do raise_if (is_some (lookup o.order_id b)) duplicate; ok (insert o.order_id o b)

-- `_normalize_order_id`
unfoldable pub normalize_order_id : Text → Result BookError Text
normalize_order_id id = do raise_if (is_empty (strip id)) blank_id; ok (strip id)

abbrev pub found : Option PaperOrder → Result BookError PaperOrder
found none = err not_found
found (some o) = ok o

-- `get`
unfoldable pub get : Text → OrderBook → Result BookError PaperOrder
unfolding normalize_order_id
get id b = do key ← normalize_order_id id; found (lookup key b)

-- `contains`
unfoldable pub contains : Text → OrderBook → Result BookError Bool
unfolding normalize_order_id
contains id b = do key ← normalize_order_id id; ok (is_some (lookup key b))

-- `update`: the book with the newer snapshot of a stored order. Aware timestamps are equal where
-- their instants are.
unfoldable pub update : PaperOrder → OrderBook → Result BookError OrderBook
update o b = do
  current ← get o.order_id b
  raise_if (not (o.created_at.instant == current.created_at.instant)) created_at_changed
  raise_if (ltb o.updated_at.instant current.updated_at.instant) stale
  ok (insert o.order_id o b)

-- `open_orders`
unfoldable pub open_orders : OrderBook → List PaperOrder
open_orders b = filter (λ o. not (is_terminal o)) (values b)

-- `open_orders_for_symbol`, behind `_normalize_symbol`
unfoldable pub open_orders_for_symbol : Text → OrderBook → Result BookError (List PaperOrder)
unfolding open_orders
open_orders_for_symbol symbol b = do
  raise_if (is_empty (normalize symbol)) blank_symbol
  ok (filter (λ o. text_eq (normalize o.request.symbol) (normalize symbol)) (open_orders b))

-- `terminal_orders`
unfoldable pub terminal_orders : OrderBook → List PaperOrder
terminal_orders b = filter is_terminal (values b)

-- `history`
abbrev pub history : OrderBook → List PaperOrder
history b = values b

-- `__len__`
abbrev pub size : OrderBook → ℕ
size b = length b

abbrev pub is_day : TimeInForce → Bool
is_day day = true
is_day gtc = false
is_day ioc = false

-- `rounding` is how an order's average price is computed.
module _ (rounding : Rounding) where
  -- `cancel`: the cancelled order, and the book that holds it.
  unfoldable pub cancel : Text → Datetime → OrderBook → Result BookError (PaperOrder × OrderBook)
  cancel id at b = do
    current ← get id b
    cancelled ← from_order (cancel_order rounding current at)
    b' ← update cancelled b
    ok (cancelled, b')

  -- One round of the loop of `expire_day_orders`.
  unfoldable pub expire_one :
      Datetime → PaperOrder → OrderBook → Result BookError (PaperOrder × OrderBook)
  expire_one at o b = do
    transitioned ← from_order (expire_order rounding o at)
    b' ← update transitioned b
    ok (transitioned, b')

  -- The loop of `expire_day_orders` over the snapshot of the open orders: `at i` is the time of the
  -- i-th transition, the caller's `at` or a new reading of the clock. What raises leaves the book
  -- as the rounds before have made it.
  unfoldable pub expire_loop :
      (ℕ → Datetime)
      → ℕ
      → List PaperOrder
      → OrderBook
      → Result BookError (List PaperOrder) × OrderBook
  expire_loop at i [] b = (ok [], b)
  expire_loop at i (o ∷ os) b = elim (is_day o.request.time_in_force) [
    | false ↦ expire_loop at i os b
    | true ↦ elim (expire_one (at i) o b) [
      | err e ↦ (err e, b)
      | ok (t, b') ↦ let (r, b'') = expire_loop at (suc i) os b' in (r >>= λ ts. ok (t ∷ ts), b'')
    ]
  ]

  -- `expire_day_orders`
  unfoldable pub expire_day_orders :
      (ℕ → Datetime) → OrderBook → Result BookError (List PaperOrder) × OrderBook
  unfolding expire_loop open_orders
  expire_day_orders at b = expire_loop at 0 (open_orders b) b
