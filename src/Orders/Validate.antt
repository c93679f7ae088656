-- ===== src/Orders/Validate.antt =====
-- The `__post_init__` methods of OrderRequest, Fill and PaperOrder: a record of raw field values
-- goes in, and the normalised record comes out or the first failing check raises.
use webull_aitrader.Shared.{
  Rounding, Bool, true, false, not, ◌&&◌, Option, none, some, List, [], ◌∷◌, Text, Datetime, ℤ, pos,
  ltb_ℤ, leb_ℤ, eqb_ℤ, sum_of, any, is_empty, strip, normalize, text_eq, is_some, ltb, lacks_offset,
  Result, ok, ◌>>◌, raise_if, if◌then◌else◌,
}
use webull_aitrader.Orders.Model.{
  OrderType, market, limit, stop, stop_limit, OrderStatus, partially_filled, filled, rejected,
  OrderRequest, Fill, PaperOrder, notional, fill_quantity, OrderError, symbol_required,
  quantity_not_positive, limit_not_positive, stop_not_positive, market_with_price, limit_missing,
  limit_with_stop, stop_missing, stop_with_limit, stop_limit_incomplete, fill_id_required,
  order_id_required, price_not_positive, commission_negative, timestamp_naive,
  updated_before_created, filled_negative, filled_exceeds_quantity, average_not_positive,
  average_missing, average_without_fill, foreign_fill, fills_quantity_mismatch,
  fills_average_mismatch, filled_incomplete, partial_out_of_range, reason_missing,
  rejected_with_fills, reason_not_rejected,
}

abbrev pub Checked : Type 0 → Type 0
Checked = Result OrderError

-- `value is not None and value <= ZERO`
abbrev pub given_nonpositive : Option ℤ → Bool
given_nonpositive none = false
given_nonpositive (some v) = leb_ℤ v (pos 0)

-- The part of `_validate_order_prices` below its first two checks.
unfoldable pub price_fields : OrderType → Option ℤ → Option ℤ → Checked (Unit {0})
price_fields market l s = raise_if (if is_some l then true else is_some s) market_with_price
price_fields limit l s = do
  raise_if (not (is_some l)) limit_missing
  raise_if (is_some s) limit_with_stop
price_fields stop l s = do
  raise_if (not (is_some s)) stop_missing
  raise_if (is_some l) stop_with_limit
price_fields stop_limit l s = raise_if (not (is_some l && is_some s)) stop_limit_incomplete

unfoldable pub validate_order_prices : OrderType → Option ℤ → Option ℤ → Checked (Unit {0})
unfolding price_fields
validate_order_prices t l s = do
  raise_if (given_nonpositive l) limit_not_positive
  raise_if (given_nonpositive s) stop_not_positive
  price_fields t l s

-- `x.strip() if x and x.strip() else None`
abbrev pub strip_or_none : Option Text → Option Text
strip_or_none none = none
strip_or_none (some t) = if is_empty (strip t) then none else some (strip t)

-- `OrderRequest.__post_init__`
unfoldable pub validate_request : OrderRequest → Checked OrderRequest
validate_request r = do
  raise_if (is_empty (normalize r.symbol)) symbol_required
  raise_if (leb_ℤ r.quantity (pos 0)) quantity_not_positive
  validate_order_prices r.order_type r.limit_price r.stop_price
  ok (record r { symbol = normalize r.symbol; client_order_id = strip_or_none r.client_order_id })

-- `liquidity_flag.strip().upper()` or None
abbrev pub normalize_or_none : Option Text → Option Text
normalize_or_none none = none
normalize_or_none (some t) = if is_empty (strip t) then none else some (normalize t)

-- `Fill.__post_init__`
unfoldable pub validate_fill : Fill → Checked Fill
validate_fill f = do
  raise_if (is_empty (strip f.fill_id)) fill_id_required
  raise_if (is_empty (strip f.order_id)) order_id_required
  raise_if (leb_ℤ f.quantity (pos 0)) quantity_not_positive
  raise_if (leb_ℤ f.price (pos 0)) price_not_positive
  raise_if (ltb_ℤ f.commission (pos 0)) commission_negative
  raise_if (lacks_offset f.timestamp.zone) timestamp_naive
  ok (record f {
    fill_id = strip f.fill_id;
    order_id = strip f.order_id;
    venue = strip_or_none f.venue;
    liquidity_flag = normalize_or_none f.liquidity_flag;
  })

-- `_require_aware_datetime`
abbrev pub require_aware_datetime : Datetime → Checked (Unit {0})
require_aware_datetime t = raise_if (lacks_offset t.zone) timestamp_naive

-- `average is not None and x == average`
abbrev pub average_is : ℤ → Option ℤ → Bool
average_is x none = false
average_is x (some a) = eqb_ℤ x a

abbrev pub belongs_to : Text → Fill → Bool
belongs_to id f = text_eq f.order_id id

-- The block under `if self.fills:`. The division rounds to the precision of the running
-- context; the repository never sets that context.
unfoldable pub check_fills : Rounding → Text → ℤ → Option ℤ → List Fill → Checked (Unit {0})
check_fills rounding id filled_quantity average [] = ok tt
check_fills rounding id filled_quantity average (f ∷ fs) = do
  raise_if (any (λ g. not (belongs_to id g)) (f ∷ fs)) foreign_fill
  raise_if (not (eqb_ℤ (sum_of fill_quantity (f ∷ fs)) filled_quantity)) fills_quantity_mismatch
  raise_if
      (not (
        average_is (rounding.divide (sum_of notional (f ∷ fs)) (sum_of fill_quantity (f ∷ fs)))
          average))
      fills_average_mismatch

abbrev pub is_positive : ℤ → Bool
is_positive v = ltb_ℤ (pos 0) v

-- The checks of the filled quantity and of the average price.
unfoldable pub check_amounts : ℤ → ℤ → Option ℤ → Checked (Unit {0})
check_amounts quantity filled_quantity average = do
  raise_if (ltb_ℤ filled_quantity (pos 0)) filled_negative
  raise_if (ltb_ℤ quantity filled_quantity) filled_exceeds_quantity
  raise_if (given_nonpositive average) average_not_positive
  if is_positive filled_quantity
      then raise_if (not (is_some average)) average_missing
      else raise_if (is_some average) average_without_fill

-- The checks that depend on the status, over the stripped rejection reason.
unfoldable pub check_status : OrderStatus → ℤ → ℤ → Option Text → Checked (Unit {0})
check_status rejected quantity filled_quantity reason = do
  raise_if (not (is_some reason)) reason_missing
  raise_if (not (eqb_ℤ filled_quantity (pos 0))) rejected_with_fills
check_status filled quantity filled_quantity reason = do
  raise_if (not (eqb_ℤ filled_quantity quantity)) filled_incomplete
  raise_if (is_some reason) reason_not_rejected
check_status partially_filled quantity filled_quantity reason = do
  raise_if (not (is_positive filled_quantity && ltb_ℤ filled_quantity quantity))
      partial_out_of_range
  raise_if (is_some reason) reason_not_rejected
check_status _ quantity filled_quantity reason = raise_if (is_some reason) reason_not_rejected

-- `PaperOrder.__post_init__`
unfoldable pub validate_order : Rounding → PaperOrder → Checked PaperOrder
validate_order rounding o = do
  raise_if (is_empty (strip o.order_id)) order_id_required
  require_aware_datetime o.created_at
  require_aware_datetime o.updated_at
  raise_if (ltb o.updated_at.instant o.created_at.instant) updated_before_created
  check_amounts o.request.quantity o.filled_quantity o.average_fill_price
  check_fills rounding (strip o.order_id) o.filled_quantity o.average_fill_price o.fills
  check_status o.status o.request.quantity o.filled_quantity (strip_or_none o.rejection_reason)
  ok (record o { order_id = strip o.order_id; rejection_reason = strip_or_none o.rejection_reason })
