-- ===== src/Orders/Inversion.antt =====
-- What is known of a call of app/paper_trading/orders.py that has returned an order: the guards that
-- it passed, and the record that it validated.
use webull_aitrader.Shared.{
  Rounding, ◌≡◌, Bool, true, false, some, Text, pos, ◌≤◌, ◌<ℤ◌, ◌≤ℤ◌, is_empty, strip, lacks_offset,
  Datetime, ok, arith, leb_ℤ, ltb_ℤ, raise_if-eq-ok, ok-injective, ◌>>=◌, ◌>>◌, strip-strip,
}
use webull_aitrader.Orders.Model.{rejected, Fill, PaperOrder, remaining_quantity}
use webull_aitrader.Orders.Validate.{
  Checked, validate_order, validate_fill, strip_or_none, normalize_or_none,
}
use webull_aitrader.Orders.Lifecycle.{
  FillArgs, is_new, is_fillable, transition_time, require_status, reject_order, filled_order,
  apply_fill,
}

pub transition_time-eq-ok :
    (o : PaperOrder) (t : Datetime) {at : Datetime}
    → transition_time o t ≡ ok at
    → (lacks_offset t.zone ≡ false) × (o.updated_at.instant ≤ t.instant) × (t ≡ at)
unfolding transition_time
transition_time-eq-ok o t h = ground arith

-- The guards that every transition begins with.
pub guarded_time-eq-ok :
    (allowed : Bool) (o : PaperOrder) (t : Datetime) (k : Datetime → Checked PaperOrder)
    {o' : PaperOrder}
    → (require_status allowed >> (transition_time o t >>= k)) ≡ ok o'
    → (allowed ≡ true) × (o.updated_at.instant ≤ t.instant) × (k t ≡ ok o')
unfolding transition_time
guarded_time-eq-ok allowed o t k h = ground arith

-- The fill that `apply_fill` makes, once `Fill.__post_init__` has normalised it.
abbrev pub made_fill : PaperOrder → FillArgs → Fill
made_fill o a = record {
  fill_id = strip (strip a.fill_id);
  order_id = strip o.order_id;
  quantity = a.quantity;
  price = a.price;
  timestamp = a.timestamp;
  commission = a.commission;
  slippage = a.slippage;
  venue = strip_or_none a.venue;
  liquidity_flag = normalize_or_none a.liquidity_flag;
}

pub validate_fill-eq-ok :
    (f : Fill) {g : Fill}
    → validate_fill f ≡ ok g
    → (is_empty (strip f.fill_id) ≡ false)
      × (is_empty (strip f.order_id) ≡ false)
      × (leb_ℤ f.quantity (pos 0) ≡ false)
      × (leb_ℤ f.price (pos 0) ≡ false)
      × (ltb_ℤ f.commission (pos 0) ≡ false)
      × (lacks_offset f.timestamp.zone ≡ false)
      × (record f {
        fill_id = strip f.fill_id;
        order_id = strip f.order_id;
        venue = strip_or_none f.venue;
        liquidity_flag = normalize_or_none f.liquidity_flag;
      }
          ≡ g)
unfolding validate_fill
validate_fill-eq-ok f h =
    let a = raise_if-eq-ok _ _ _ h in
    let b = raise_if-eq-ok _ _ _ a.1 in
    let c = raise_if-eq-ok _ _ _ b.1 in
    let d = raise_if-eq-ok _ _ _ c.1 in
    let e = raise_if-eq-ok _ _ _ d.1 in
    let g = raise_if-eq-ok _ _ _ e.1 in (a.0, b.0, c.0, d.0, e.0, g.0, ok-injective g.1)

-- The guards of `apply_fill`.
pub record FillGuards (o : PaperOrder) (a : FillArgs) : Type 0 where
  pub fillable : is_fillable o.status ≡ true
  pub quantity_positive : pos 0 <ℤ a.quantity
  pub price_positive : pos 0 <ℤ a.price
  pub within_remaining : a.quantity ≤ℤ remaining_quantity o
  pub commission_nonneg : pos 0 ≤ℤ a.commission
  pub time_aware : lacks_offset a.timestamp.zone ≡ false
  pub time_after : o.updated_at.instant ≤ a.timestamp.instant
  pub id_present : is_empty (strip a.fill_id) ≡ false

module _ (rounding : Rounding) where
  pub apply_fill-eq-ok :
      (o : PaperOrder) (a : FillArgs) {o' : PaperOrder}
      → apply_fill rounding o a ≡ ok o'
      → FillGuards o a × (validate_order rounding (filled_order rounding o (made_fill o a)) ≡ ok o')
  unfolding apply_fill transition_time validate_fill
  apply_fill-eq-ok o a h = (ground arith, ground arith)

  pub reject_order-eq-ok :
      (o : PaperOrder) (reason : Text) (t : Datetime) {o' : PaperOrder}
      → reject_order rounding o reason t ≡ ok o'
      → (is_new o.status ≡ true)
        × (o.updated_at.instant ≤ t.instant)
        × (validate_order rounding (record o {
          status = rejected;
          updated_at = t;
          rejection_reason = some (strip reason);
        })
            ≡ ok o')
  unfolding reject_order transition_time
  reject_order-eq-ok o reason t h = ground arith

  -- Past its guards `apply_fill` is the validation of the filled order.
  pub apply_fill_of_FillGuards :
      (o : PaperOrder) (a : FillArgs)
      → FillGuards o a
      → is_empty (strip o.order_id) ≡ false
      → apply_fill rounding o a ≡ validate_order rounding (filled_order rounding o (made_fill o a))
  unfolding apply_fill transition_time validate_fill
  apply_fill_of_FillGuards o a g i = ground (arith, strip-strip a.fill_id)
