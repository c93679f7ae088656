-- ===== src/Orders/Lifecycle.antt =====
-- app/paper_trading/orders.py: creation and the transitions of an order. A timestamp argument is
-- the caller's `at`, or the reading of the clock where the caller gives none. `replace` builds the
-- order anew, so every result has passed `validate_order` once more.
use webull_aitrader.Shared.{
  Rounding, Bool, true, false, not, Option, none, some, [], ◌∷◌, ◌++◌, Text, Datetime, ℤ, pos, ◌+ℤ◌,
  ltb_ℤ, leb_ℤ, eqb_ℤ, is_empty, strip, ltb, lacks_offset, ok, is_ok, ◌>>=◌, ◌>>◌, raise_if,
  if◌then◌else◌,
}
use webull_aitrader.Orders.Model.{
  OrderStatus, new, accepted, partially_filled, filled, cancelled, rejected, expired, OrderRequest,
  Fill, PaperOrder, remaining_quantity, notional, timestamp_naive, invalid_transition,
  empty_order_id, blank_reason, fill_quantity_not_positive, fill_price_not_positive,
  fill_exceeds_remaining, fill_commission_negative, time_before_updated, empty_fill_id,
}
use webull_aitrader.Orders.Validate.{Checked, validate_fill, validate_order}

-- `order.status in (NEW,)`
abbrev pub is_new : OrderStatus → Bool
is_new new = true
is_new _ = false

-- `order.status in (ACCEPTED, PARTIALLY_FILLED)`
abbrev pub is_fillable : OrderStatus → Bool
is_fillable accepted = true
is_fillable partially_filled = true
is_fillable _ = false

-- `order.status in (NEW, ACCEPTED, PARTIALLY_FILLED)`
abbrev pub is_open : OrderStatus → Bool
is_open new = true
is_open accepted = true
is_open partially_filled = true
is_open _ = false

-- `_require_status`, over the outcome of the membership test
abbrev pub require_status : Bool → Checked (Unit {0})
require_status allowed = raise_if (not allowed) invalid_transition

-- `_transition_time`
unfoldable pub transition_time : PaperOrder → Datetime → Checked Datetime
transition_time o t = do
  raise_if (lacks_offset t.zone) timestamp_naive
  raise_if (ltb t.instant o.updated_at.instant) time_before_updated
  ok t

-- What `apply_fill` is called with, the value of its `fill_id_factory` among it.
pub record FillArgs : Type 0 where
  pub quantity : ℤ
  pub price : ℤ
  pub timestamp : Datetime
  pub commission : ℤ
  pub slippage : ℤ
  pub venue : Option Text
  pub liquidity_flag : Option Text
  pub fill_id : Text

-- `average if average is not None else ZERO`
abbrev pub average_or_zero : Option ℤ → ℤ
average_or_zero none = pos 0
average_or_zero (some a) = a

module _ (rounding : Rounding) where
  unfoldable pub create_order : OrderRequest → Text → Datetime → Checked PaperOrder
  create_order request id now = do
    raise_if (is_empty (strip id)) empty_order_id
    raise_if (lacks_offset now.zone) timestamp_naive
    validate_order rounding (record {
      order_id = strip id;
      request = request;
      status = new;
      created_at = now;
      updated_at = now;
      filled_quantity = pos 0;
      average_fill_price = none;
      rejection_reason = none;
      fills = [];
    })

  unfoldable pub accept_order : PaperOrder → Datetime → Checked PaperOrder
  accept_order o t = do
    require_status (is_new o.status)
    at ← transition_time o t
    validate_order rounding (record o { status = accepted; updated_at = at })

  unfoldable pub reject_order : PaperOrder → Text → Datetime → Checked PaperOrder
  reject_order o reason t = do
    require_status (is_new o.status)
    raise_if (is_empty (strip reason)) blank_reason
    at ← transition_time o t
    validate_order rounding
        (record o { status = rejected; updated_at = at; rejection_reason = some (strip reason) })

  unfoldable pub cancel_order : PaperOrder → Datetime → Checked PaperOrder
  cancel_order o t = do
    require_status (is_open o.status)
    at ← transition_time o t
    validate_order rounding (record o { status = cancelled; updated_at = at })

  unfoldable pub expire_order : PaperOrder → Datetime → Checked PaperOrder
  expire_order o t = do
    require_status (is_open o.status)
    at ← transition_time o t
    validate_order rounding (record o { status = expired; updated_at = at })

  -- The order that `apply_fill` rebuilds once the fill has been made.
  unfoldable pub filled_order : PaperOrder → Fill → PaperOrder
  filled_order o f =
      let total = o.filled_quantity +ℤ f.quantity in
      record o {
        status = if eqb_ℤ total o.request.quantity then filled else partially_filled;
        updated_at = f.timestamp;
        filled_quantity = total;
        average_fill_price = some (
            rounding.divide
              (rounding.plus
                (rounding.times o.filled_quantity (average_or_zero o.average_fill_price))
                (notional f))
              total);
        fills = o.fills ++ f ∷ [];
      }

  unfoldable pub apply_fill : PaperOrder → FillArgs → Checked PaperOrder
  unfolding filled_order
  apply_fill o a = do
    require_status (is_fillable o.status)
    raise_if (leb_ℤ a.quantity (pos 0)) fill_quantity_not_positive
    raise_if (leb_ℤ a.price (pos 0)) fill_price_not_positive
    raise_if (ltb_ℤ (remaining_quantity o) a.quantity) fill_exceeds_remaining
    raise_if (ltb_ℤ a.commission (pos 0)) fill_commission_negative
    at ← transition_time o a.timestamp
    raise_if (is_empty (strip a.fill_id)) empty_fill_id
    fill ← validate_fill (record {
      fill_id = strip a.fill_id;
      order_id = o.order_id;
      quantity = a.quantity;
      price = a.price;
      timestamp = at;
      commission = a.commission;
      slippage = a.slippage;
      venue = a.venue;
      liquidity_flag = a.liquidity_flag;
    })
    validate_order rounding (filled_order o fill)

-- Whether `apply_fill` gets as far as its call of `fill_id_factory`.
unfoldable pub draws_fill_id : PaperOrder → FillArgs → Bool
draws_fill_id o a = is_ok (do
  require_status (is_fillable o.status)
  raise_if (leb_ℤ a.quantity (pos 0)) fill_quantity_not_positive
  raise_if (leb_ℤ a.price (pos 0)) fill_price_not_positive
  raise_if (ltb_ℤ (remaining_quantity o) a.quantity) fill_exceeds_remaining
  raise_if (ltb_ℤ a.commission (pos 0)) fill_commission_negative
  transition_time o a.timestamp)
