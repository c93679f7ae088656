-- ===== src/Orders/Closing.antt =====
-- About cancellation and expiry in app/paper_trading/orders.py.
use webull_aitrader.Shared.{
  Rounding, ◌≡◌, ◌≤◌, ◌∙◌, sym, refl, Bool, true, false, Option, Text, Datetime, ℤ, lacks_offset,
  ok, arith,
}
use webull_aitrader.Orders.Model.{OrderStatus, cancelled, expired, PaperOrder}
use webull_aitrader.Orders.Validate.{validate_order}
use webull_aitrader.Orders.Lifecycle.{is_open, transition_time, cancel_order, expire_order}
use webull_aitrader.Orders.WellFormed.{
  IsWellFormed, StatusFits, normalized_order, validate_order-eq-ok, validate_order_of_IsWellFormed,
}
use webull_aitrader.Orders.Inversion.{guarded_time-eq-ok}

abbrev pub closed_as : OrderStatus → Datetime → PaperOrder → PaperOrder
closed_as s at o = record o { status = s; updated_at = at }

-- The two statuses that close an open order.
abbrev pub closes : OrderStatus → Bool
closes cancelled = true
closes expired = true
closes _ = false

StatusFits-closed :
    (s s' : OrderStatus) (q f : ℤ) (r : Option Text)
    → is_open s ≡ true
    → closes s' ≡ true
    → StatusFits s q f r
    → StatusFits s' q f r
StatusFits-closed s s' q f r h c fit = ground arith

module _ (rounding : Rounding) where
  normalized-closed :
      (s : OrderStatus) (at : Datetime) (o : PaperOrder)
      → IsWellFormed rounding o
      → normalized_order rounding (closed_as s at o) ≡ closed_as s at o
  normalized-closed s at o w = λ i. record o {
    status = s;
    updated_at = at;
    order_id = w.id_stripped i;
    rejection_reason = w.reason_stripped i;
  }

  validate-closed :
      (s : OrderStatus) (at : Datetime) (o : PaperOrder) {o' : PaperOrder}
      → IsWellFormed rounding o
      → validate_order rounding (closed_as s at o) ≡ ok o'
      → o' ≡ closed_as s at o
  validate-closed s at o w h =
      sym (validate_order-eq-ok rounding (closed_as s at o) h).1 ∙ normalized-closed s at o w

  pub cancel_order-eq-ok :
      (o : PaperOrder) (at : Datetime) {o' : PaperOrder}
      → IsWellFormed rounding o
      → cancel_order rounding o at ≡ ok o'
      → o' ≡ closed_as cancelled at o
  unfolding cancel_order
  cancel_order-eq-ok o at w h =
      validate-closed cancelled at o w (guarded_time-eq-ok (is_open o.status) o at _ h).2

  closed-IsWellFormed :
      (s : OrderStatus) (at : Datetime) (o : PaperOrder)
      → IsWellFormed rounding o
      → is_open o.status ≡ true
      → closes s ≡ true
      → lacks_offset at.zone ≡ false
      → o.updated_at.instant ≤ at.instant
      → IsWellFormed rounding (closed_as s at o)
  closed-IsWellFormed s at o w was_open c aware later = record {
    id_present = w.id_present;
    id_stripped = w.id_stripped;
    created_aware = w.created_aware;
    updated_aware = aware;
    time_ordered = omega (arith, w.time_ordered, later);
    filled_nonneg = w.filled_nonneg;
    filled_bounded = w.filled_bounded;
    average_fits = w.average_fits;
    fills_fit = w.fills_fit;
    reason_stripped = w.reason_stripped;
    status_fits = StatusFits-closed o.status s _ _ _ was_open c w.status_fits;
  }

  -- An open, well-formed order can be cancelled and can expire, at any aware time that is not
  -- before its last update. Only its status and its update time change.
  pub closing_total :
      (o : PaperOrder) (at : Datetime)
      → IsWellFormed rounding o
      → is_open o.status ≡ true
      → lacks_offset at.zone ≡ false
      → o.updated_at.instant ≤ at.instant
      → (cancel_order rounding o at ≡ ok (closed_as cancelled at o))
        × (expire_order rounding o at ≡ ok (closed_as expired at o))
  unfolding cancel_order expire_order transition_time
  closing_total o at w was_open aware later =
      let c = closed-IsWellFormed cancelled at o w was_open refl aware later in
      let e = closed-IsWellFormed expired at o w was_open refl aware later in
      let validc = validate_order_of_IsWellFormed rounding (closed_as cancelled at o) c in
      let valide = validate_order_of_IsWellFormed rounding (closed_as expired at o) e in
      (ground arith, ground arith)
