-- ===== src/Orders/Laws.antt =====
-- The transitions of app/paper_trading/orders.py: which status may follow which, what an operation
-- keeps, and when it raises.
use webull_aitrader.Shared.{
  Rounding, ◌≡◌, refl, Bool, true, false, Text, ◌≤◌, int_laws, if◌then◌else◌, ◌≤ℤ◌, strip, Datetime,
  ok, err, arith,
}
use webull_aitrader.Orders.Model.{
  OrderStatus, new, accepted, partially_filled, filled, cancelled, rejected, expired, PaperOrder,
  is_terminal_status, invalid_transition,
}
use webull_aitrader.Orders.Validate.{Checked, validate_order}
use webull_aitrader.Orders.Lifecycle.{
  FillArgs, is_new, is_open, is_fillable, accept_order, reject_order, cancel_order, expire_order,
  filled_order, apply_fill,
}
use webull_aitrader.Orders.WellFormed.{
  IsWellFormed, validate_order-IsWellFormed, validate_order-eq-ok,
}
use webull_aitrader.Orders.Inversion.{
  made_fill, guarded_time-eq-ok, apply_fill-eq-ok, reject_order-eq-ok,
}
use mathlib.Core.Path.{subst}

-- The documented life of an order.
infix 40 ◌⟶◌
pub data ◌⟶◌ : OrderStatus → OrderStatus → Type 0 where
  accept : new ⟶ accepted
  reject : new ⟶ rejected
  cancel_new : new ⟶ cancelled
  cancel_accepted : accepted ⟶ cancelled
  cancel_partial : partially_filled ⟶ cancelled
  expire_new : new ⟶ expired
  expire_accepted : accepted ⟶ expired
  expire_partial : partially_filled ⟶ expired
  fill_part : accepted ⟶ partially_filled
  fill_more : partially_filled ⟶ partially_filled
  fill_whole : accepted ⟶ filled
  fill_rest : partially_filled ⟶ filled

edge_of_new : (s t : OrderStatus) → new ⟶ t → is_new s ≡ true → s ⟶ t
edge_of_new new t e h = e
edge_of_new _ t e h = cc

edge-cancelled : (s : OrderStatus) → is_open s ≡ true → s ⟶ cancelled
edge-cancelled new h = cancel_new
edge-cancelled accepted h = cancel_accepted
edge-cancelled partially_filled h = cancel_partial
edge-cancelled _ h = cc

edge-expired : (s : OrderStatus) → is_open s ≡ true → s ⟶ expired
edge-expired new h = expire_new
edge-expired accepted h = expire_accepted
edge-expired partially_filled h = expire_partial
edge-expired _ h = cc

edge-filled :
    (s : OrderStatus) (whole : Bool)
    → is_fillable s ≡ true
    → s ⟶ (if whole then filled else partially_filled)
edge-filled accepted true h = fill_whole
edge-filled accepted false h = fill_part
edge-filled partially_filled true h = fill_rest
edge-filled partially_filled false h = fill_more
edge-filled _ whole h = cc

-- A call on an order, with its arguments.
pub data OrderCall : Type 0 where
  accept_call : Datetime → OrderCall
  reject_call : Text → Datetime → OrderCall
  cancel_call : Datetime → OrderCall
  expire_call : Datetime → OrderCall
  fill_call : FillArgs → OrderCall

module _ (rounding : Rounding) where
  abbrev pub run_call : OrderCall → PaperOrder → Checked PaperOrder
  run_call (accept_call t) o = accept_order rounding o t
  run_call (reject_call r t) o = reject_order rounding o r t
  run_call (cancel_call t) o = cancel_order rounding o t
  run_call (expire_call t) o = expire_order rounding o t
  run_call (fill_call a) o = apply_fill rounding o a

  -- What a call that returns has done, whichever call it was.
  pub record Moves (o o' : PaperOrder) : Type 0 where
    pub edge : o.status ⟶ o'.status
    pub same_id : o'.order_id ≡ strip o.order_id
    pub same_request : o'.request ≡ o.request
    pub same_created : o'.created_at ≡ o.created_at
    pub time_forward : o.updated_at.instant ≤ o'.updated_at.instant
    pub filled_forward : o.filled_quantity ≤ℤ o'.filled_quantity
    pub well_formed : IsWellFormed rounding o'

  -- The rebuilt record is what the call returns, so it is enough to look at that record.
  rebuilt-Moves :
      (o x : PaperOrder) {o' : PaperOrder}
      → validate_order rounding x ≡ ok o'
      → o.status ⟶ x.status
      → x.order_id ≡ o.order_id
      → x.request ≡ o.request
      → x.created_at ≡ o.created_at
      → o.updated_at.instant ≤ x.updated_at.instant
      → o.filled_quantity ≤ℤ x.filled_quantity
      → Moves o o'
  rebuilt-Moves o x {o'} v edge id request created time grows =
      let same = (validate_order-eq-ok rounding x v).1 in
      record {
        edge = subst (λ (y : PaperOrder). o.status ⟶ y.status) same edge;
        same_id = rw (← same) (rw id);
        same_request = rw (← same) request;
        same_created = rw (← same) created;
        time_forward = rw (← same) time;
        filled_forward = rw (← same) grows;
        well_formed = validate_order-IsWellFormed rounding x v;
      }

  apply_fill-Moves :
      (o : PaperOrder) (a : FillArgs) {o' : PaperOrder}
      → apply_fill rounding o a ≡ ok o'
      → Moves o o'
  unfolding filled_order
  apply_fill-Moves o a h =
      let (g, v) = apply_fill-eq-ok rounding o a h in
      let positive = g.quantity_positive in
      rebuilt-Moves o (filled_order rounding o (made_fill o a)) v
        (edge-filled o.status _ g.fillable) refl refl refl g.time_after (omega int_laws)

  -- Whichever call of the lifecycle returns an order, its status has followed an edge of the
  -- diagram, its id, request and creation time are the old ones, neither its update time nor its
  -- filled quantity has gone back, and it is well formed.
  pub run_call-Moves :
      (c : OrderCall) (o : PaperOrder) {o' : PaperOrder} → run_call c o ≡ ok o' → Moves o o'
  unfolding accept_order cancel_order expire_order
  run_call-Moves (accept_call t) o h =
      let (allowed, time, v) = guarded_time-eq-ok (is_new o.status) o t _ h in
      rebuilt-Moves o _ v (edge_of_new o.status accepted accept allowed) refl refl refl time
        (omega arith)
  run_call-Moves (reject_call r t) o h =
      let (allowed, time, v) = reject_order-eq-ok rounding o r t h in
      rebuilt-Moves o _ v (edge_of_new o.status rejected reject allowed) refl refl refl time
        (omega arith)
  run_call-Moves (cancel_call t) o h =
      let (allowed, time, v) = guarded_time-eq-ok (is_open o.status) o t _ h in
      rebuilt-Moves o _ v (edge-cancelled o.status allowed) refl refl refl time (omega arith)
  run_call-Moves (expire_call t) o h =
      let (allowed, time, v) = guarded_time-eq-ok (is_open o.status) o t _ h in
      rebuilt-Moves o _ v (edge-expired o.status allowed) refl refl refl time (omega arith)
  run_call-Moves (fill_call a) o h = apply_fill-Moves o a h

  -- No call returns an order from a terminal status: each raises the invalid transition.
  pub run_call_terminal :
      (c : OrderCall) (o : PaperOrder)
      → is_terminal_status o.status ≡ true
      → run_call c o ≡ err invalid_transition
  unfolding accept_order reject_order cancel_order expire_order apply_fill
  run_call_terminal (accept_call t) o h = ground arith
  run_call_terminal (reject_call r t) o h = ground arith
  run_call_terminal (cancel_call t) o h = ground arith
  run_call_terminal (expire_call t) o h = ground arith
  run_call_terminal (fill_call a) o h = ground arith
