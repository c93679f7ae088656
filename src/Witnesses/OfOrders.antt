-- ===== src/Witnesses/OfOrders.antt =====
-- The theorems on orders, at sample orders.
use webull_aitrader.Shared.{
  ◌≡◌, ◌↔◌, refl, true, false, [], ◌∷◌, ◌++◌, pos, ◌+ℤ◌, ◌-ℤ◌, ◌<ℤ◌, ◌*ℤ◌, ok, err, is_ok, codes,
  if◌then◌else◌, eqb_ℤ, is_empty, normalize, strip, lstrip, rstrip, upper, text_eq, arith,
}
use webull_aitrader.Orders.Model.{
  remaining_quantity, filled, partially_filled, cancelled, expired, invalid_transition,
}
use webull_aitrader.Orders.Validate.{
  validate_order, validate_request, check_amounts, check_fills, check_status, validate_fill,
}
use webull_aitrader.Orders.Lifecycle.{
  create_order, accept_order, cancel_order, expire_order, apply_fill, filled_order, transition_time,
}
use webull_aitrader.Orders.WellFormed.{
  IsWellFormed, validate_order-IsWellFormed, validate_order_of_IsWellFormed,
}
use webull_aitrader.Orders.Inversion.{made_fill, FillGuards}
use webull_aitrader.Orders.Laws.{
  accept_call, fill_call, cancel_call, run_call, Moves, run_call-Moves, run_call_terminal,
}
use webull_aitrader.Orders.Fills.{
  apply_fill_accounts, apply_fill_iff, running_average, recorded_average, IsRecorded, Reached,
  Reached-IsRecorded, called, created,
}
use webull_aitrader.Orders.Requests.{
  validate_request_iff, PositiveIfGiven, PricesFit, normalized_request,
}
use webull_aitrader.Orders.Closing.{closing_total, closed_as}
use webull_aitrader.Witnesses.Samples.{rounding_down, clock, request, live, args, partial}

pub live-IsWellFormed : IsWellFormed rounding_down live
unfolding validate_order check_amounts check_fills check_status strip lstrip rstrip
live-IsWellFormed = validate_order-IsWellFormed rounding_down live refl

validate_order-IsWellFormed_example : IsWellFormed rounding_down partial
unfolding validate_order check_amounts check_fills check_status strip lstrip rstrip text_eq ◌+ℤ◌
    ◌*ℤ◌
validate_order-IsWellFormed_example = validate_order-IsWellFormed rounding_down partial refl

validate_order_of_IsWellFormed_example : validate_order rounding_down live ≡ ok live
validate_order_of_IsWellFormed_example =
    validate_order_of_IsWellFormed rounding_down live live-IsWellFormed

pub live_fill : apply_fill rounding_down live args ≡ ok partial
unfolding apply_fill filled_order transition_time validate_fill validate_order check_amounts
    check_fills check_status strip lstrip rstrip text_eq upper normalize ◌+ℤ◌ ◌-ℤ◌ ◌*ℤ◌
live_fill = refl

run_call-Moves_example : Moves rounding_down live partial
run_call-Moves_example = run_call-Moves rounding_down (fill_call args) live live_fill

run_call_terminal_example :
    run_call rounding_down (cancel_call (clock 5)) (record live { status = cancelled })
    ≡ err invalid_transition
run_call_terminal_example =
    run_call_terminal rounding_down (cancel_call (clock 5)) (record live { status = cancelled })
      refl

validate_request_iff_example : (validate_request request ≡ ok request) ↔ (
    (is_empty (normalize request.symbol) ≡ false)
    × (pos 0 <ℤ request.quantity)
    × PositiveIfGiven request.limit_price
    × PositiveIfGiven request.stop_price
    × PricesFit request.order_type request.limit_price request.stop_price
    × (normalized_request request ≡ request))
validate_request_iff_example = validate_request_iff request request

apply_fill_accounts_example :
    (partial.filled_quantity ≡ live.filled_quantity +ℤ args.quantity)
    × (remaining_quantity partial ≡ remaining_quantity live -ℤ args.quantity)
    × (partial.fills ≡ live.fills ++ made_fill live args ∷ [])
    × (partial.status
        ≡ (if eqb_ℤ (remaining_quantity partial) (pos 0) then filled else partially_filled))
apply_fill_accounts_example = apply_fill_accounts rounding_down live args live_fill

pub live-FillGuards : FillGuards live args
unfolding strip lstrip rstrip ◌-ℤ◌
live-FillGuards = record {
  fillable = refl;
  quantity_positive = omega arith;
  price_positive = omega arith;
  within_remaining = omega arith;
  commission_nonneg = omega arith;
  time_aware = refl;
  time_after = omega arith;
  id_present = refl;
}

live_average : pos 0 <ℤ running_average rounding_down live args
unfolding ◌+ℤ◌ ◌*ℤ◌
live_average = omega arith

apply_fill_iff_example :
    (is_ok (apply_fill rounding_down live args) ≡ true)
    ↔ (running_average rounding_down live args ≡ recorded_average rounding_down live args)
apply_fill_iff_example =
    apply_fill_iff rounding_down live args live-IsWellFormed refl live-FillGuards live_average

partial-Reached : Reached rounding_down partial
unfolding create_order accept_order apply_fill filled_order transition_time validate_fill
    validate_order check_amounts check_fills check_status strip lstrip rstrip text_eq upper
    normalize ◌+ℤ◌ ◌-ℤ◌ ◌*ℤ◌
partial-Reached =
    called (fill_call args)
      (called (accept_call (clock 2)) (created request (codes "o1") (clock 1) refl) refl) refl

Reached-IsRecorded_example : IsWellFormed rounding_down partial × IsRecorded partial
Reached-IsRecorded_example = Reached-IsRecorded rounding_down partial-Reached

closing_total_example :
    (cancel_order rounding_down live (clock 5) ≡ ok (closed_as cancelled (clock 5) live))
    × (expire_order rounding_down live (clock 5) ≡ ok (closed_as expired (clock 5) live))
closing_total_example =
    closing_total rounding_down live (clock 5) live-IsWellFormed refl refl (omega arith)
