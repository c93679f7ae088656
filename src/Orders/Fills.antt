-- ===== src/Orders/Fills.antt =====
-- `apply_fill` of app/paper_trading/orders.py against the accounting of an order: what it adds, and
-- when the rebuilt order passes the check of its own average price.
use webull_aitrader.Shared.{
  Rounding, ◌≡◌, ◌↔◌, refl, ap, Bool, true, Option, none, some, List, [], ◌∷◌, ◌++◌, Text, ℤ, pos,
  if◌then◌else◌, ◌-ℤ◌, ◌*ℤ◌, sum_of, sum_of-append, All, All-snoc, eqb_ℤ, ◌<ℤ◌, ◌≤ℤ◌, ◌+ℤ◌, strip,
  Datetime, ok, arith, int_laws, text_eq_refl, is_ok, is_ok→ok, some-eq,
}
use webull_aitrader.Orders.Model.{
  OrderStatus, new, partially_filled, filled, Fill, notional, fill_quantity, PaperOrder,
  OrderRequest, remaining_quantity,
}
use webull_aitrader.Orders.Validate.{validate_order, belongs_to}
use webull_aitrader.Orders.Lifecycle.{
  FillArgs, filled_order, apply_fill, is_new, is_open, accept_order, cancel_order, expire_order,
  is_fillable, average_or_zero, create_order,
}
use webull_aitrader.Orders.WellFormed.{
  IsWellFormed, FillsFit, StatusFits, check_fills_iff, validate_order-IsWellFormed,
  validate_order-eq-ok, validate_order_of_IsWellFormed,
}
use webull_aitrader.Orders.Inversion.{
  made_fill, FillGuards, guarded_time-eq-ok, reject_order-eq-ok, apply_fill-eq-ok,
  apply_fill_of_FillGuards,
}
use webull_aitrader.Orders.Laws.{
  OrderCall, accept_call, reject_call, cancel_call, expire_call, fill_call, run_call,
  run_call-Moves,
}

-- The fills of an order add up to its filled quantity.
abbrev pub IsRecorded : PaperOrder → Type 0
IsRecorded o = sum_of fill_quantity o.fills ≡ o.filled_quantity

snoc-FillsFit :
    (rounding : Rounding) (id : Text) (q : ℤ) (a : Option ℤ) (fs : List Fill) (f : Fill)
    → FillsFit rounding id q a (fs ++ f ∷ []) ↔ (
        All (λ g. belongs_to id g ≡ true) (fs ++ f ∷ [])
        × (sum_of fill_quantity (fs ++ f ∷ []) ≡ q)
        × (a
            ≡ some (
                rounding.divide
                  (sum_of notional (fs ++ f ∷ []))
                  (sum_of fill_quantity (fs ++ f ∷ [])))))
snoc-FillsFit rounding id q a [] f = (λ h. h, λ h. h)
snoc-FillsFit rounding id q a (g ∷ gs) f = (λ h. h, λ h. h)

FillsFit-All :
    (rounding : Rounding) (id : Text) (q : ℤ) (a : Option ℤ) (fs : List Fill)
    → FillsFit rounding id q a fs
    → All (λ g. belongs_to id g ≡ true) fs
FillsFit-All rounding id q a [] h = tt
FillsFit-All rounding id q a (f ∷ fs) h = h.0

eqb-remaining : (q t : ℤ) → eqb_ℤ t q ≡ eqb_ℤ (q -ℤ t) (pos 0)
unfolding ◌-ℤ◌
eqb-remaining q t = ground arith

StatusFits-of_total :
    (q t : ℤ) (r : Option Text)
    → r ≡ none
    → pos 0 <ℤ t
    → t ≤ℤ q
    → StatusFits (if eqb_ℤ t q then filled else partially_filled) q t r
StatusFits-of_total q t r n p b = ground arith

reason_of_fillable :
    (s : OrderStatus) (q t : ℤ) (r : Option Text)
    → is_fillable s ≡ true
    → StatusFits s q t r
    → r ≡ none
reason_of_fillable s q t r h f = ground arith

module _ (rounding : Rounding) where
  -- A fill that is accepted adds its quantity, takes it from what remains and appends one fill; the
  -- order is then filled if nothing remains and partially filled otherwise.
  pub apply_fill_accounts :
      (o : PaperOrder) (a : FillArgs) {o' : PaperOrder}
      → apply_fill rounding o a ≡ ok o'
      → (o'.filled_quantity ≡ o.filled_quantity +ℤ a.quantity)
        × (remaining_quantity o' ≡ remaining_quantity o -ℤ a.quantity)
        × (o'.fills ≡ o.fills ++ made_fill o a ∷ [])
        × (o'.status ≡ (if eqb_ℤ (remaining_quantity o') (pos 0) then filled else partially_filled))
  unfolding filled_order
  apply_fill_accounts o a {o'} h =
      let (g, v) = apply_fill-eq-ok rounding o a h in
      let same = (validate_order-eq-ok rounding (filled_order rounding o (made_fill o a)) v).1 in
      rw (← same) (
        refl,
        omega int_laws,
        refl,
        ap (λ (b : Bool). if b then filled else partially_filled)
            (eqb-remaining o.request.quantity (o.filled_quantity +ℤ a.quantity)),
      )

  -- The average price that `apply_fill` computes from the previous average, and the one that the
  -- validation computes from the fills.
  abbrev pub running_average : PaperOrder → FillArgs → ℤ
  running_average o a =
      rounding.divide
        (rounding.plus (rounding.times o.filled_quantity (average_or_zero o.average_fill_price))
          (a.quantity *ℤ a.price))
        (o.filled_quantity +ℤ a.quantity)

  abbrev pub recorded_average : PaperOrder → FillArgs → ℤ
  recorded_average o a =
      rounding.divide (sum_of notional (o.fills ++ made_fill o a ∷ []))
        (sum_of fill_quantity (o.fills ++ made_fill o a ∷ []))

  recorded_total :
      (o : PaperOrder) (a : FillArgs)
      → IsRecorded o
      → sum_of fill_quantity (o.fills ++ made_fill o a ∷ []) ≡ o.filled_quantity +ℤ a.quantity
  recorded_total o a r =
      rw (sum_of-append fill_quantity o.fills (made_fill o a ∷ []), r) (omega int_laws)

  filled_order-IsWellFormed :
      (o : PaperOrder) (a : FillArgs)
      → IsWellFormed rounding o
      → IsRecorded o
      → FillGuards o a
      → pos 0 <ℤ running_average o a
      → running_average o a ≡ recorded_average o a
      → IsWellFormed rounding (filled_order rounding o (made_fill o a))
  unfolding filled_order
  filled_order-IsWellFormed o a w r g p e = record {
    id_present = w.id_present;
    id_stripped = w.id_stripped;
    created_aware = w.created_aware;
    updated_aware = g.time_aware;
    time_ordered = omega (arith, w.time_ordered, g.time_after);
    filled_nonneg = omega (int_laws, w.filled_nonneg, g.quantity_positive);
    filled_bounded = omega (int_laws, g.within_remaining);
    average_fits = (omega (int_laws, w.filled_nonneg, g.quantity_positive), p);
    fills_fit = (snoc-FillsFit rounding o.order_id _ _ o.fills (made_fill o a)).1 (
      All-snoc (λ g. belongs_to o.order_id g ≡ true) o.fills (made_fill o a)
          (FillsFit-All rounding o.order_id _ _ o.fills w.fills_fit)
          (rw w.id_stripped (text_eq_refl o.order_id)),
      recorded_total o a r,
      ap some e,
    );
    reason_stripped = w.reason_stripped;
    status_fits =
        StatusFits-of_total o.request.quantity (o.filled_quantity +ℤ a.quantity) o.rejection_reason
          (reason_of_fillable o.status _ _ _ g.fillable w.status_fits)
          (omega (int_laws, w.filled_nonneg, g.quantity_positive))
          (omega (int_laws, g.within_remaining));
  }

  averages_agree :
      (o : PaperOrder) (a : FillArgs) {o' : PaperOrder}
      → validate_order rounding (filled_order rounding o (made_fill o a)) ≡ ok o'
      → running_average o a ≡ recorded_average o a
  unfolding filled_order
  averages_agree o a v =
      let checks = (validate_order-eq-ok rounding (filled_order rounding o (made_fill o a)) v).0 in
      let fit =
        (check_fills_iff rounding (strip o.order_id) (o.filled_quantity +ℤ a.quantity)
            (some (running_average o a)) (o.fills ++ made_fill o a ∷ [])).0
          checks.5 in
      some-eq
        ((snoc-FillsFit rounding (strip o.order_id) (o.filled_quantity +ℤ a.quantity)
            (some (running_average o a)) o.fills (made_fill o a)).0
          fit).2

  -- Take a well-formed order whose fills account for its filled quantity, a fill that passes the
  -- guards, and a positive new average. The fill is accepted exactly if the average computed from
  -- the previous average equals the one computed from all the fills.
  pub apply_fill_iff :
      (o : PaperOrder) (a : FillArgs)
      → IsWellFormed rounding o
      → IsRecorded o
      → FillGuards o a
      → pos 0 <ℤ running_average o a
      → (is_ok (apply_fill rounding o a) ≡ true) ↔ (running_average o a ≡ recorded_average o a)
  apply_fill_iff o a w r g p = (
    λ h.
        let accepted =
          is_ok→ok (validate_order rounding (filled_order rounding o (made_fill o a)))
            (rw same at h) in
        averages_agree o a accepted.1,
    λ e. rw (
      same,
      validate_order_of_IsWellFormed rounding (filled_order rounding o (made_fill o a))
          (filled_order-IsWellFormed o a w r g p e),
    ),
  )
    where
      same :
          apply_fill rounding o a
          ≡ validate_order rounding (filled_order rounding o (made_fill o a))
      same = apply_fill_of_FillGuards rounding o a g (rw w.id_stripped w.id_present)

  replaced-IsRecorded :
      (o x : PaperOrder) {o' : PaperOrder}
      → validate_order rounding x ≡ ok o'
      → x.fills ≡ o.fills
      → x.filled_quantity ≡ o.filled_quantity
      → IsRecorded o
      → IsRecorded o'
  replaced-IsRecorded o x v f q r =
      let same = (validate_order-eq-ok rounding x v).1 in rw (← same) (rw (f, q) r)

  pub run_call-IsRecorded :
      (c : OrderCall) (o : PaperOrder) {o' : PaperOrder}
      → run_call rounding c o ≡ ok o'
      → IsRecorded o
      → IsRecorded o'
  unfolding accept_order cancel_order expire_order
  run_call-IsRecorded (accept_call t) o h =
      replaced-IsRecorded o _ (guarded_time-eq-ok (is_new o.status) o t _ h).2 refl refl
  run_call-IsRecorded (reject_call reason t) o h =
      replaced-IsRecorded o _ (reject_order-eq-ok rounding o reason t h).2 refl refl
  run_call-IsRecorded (cancel_call t) o h =
      replaced-IsRecorded o _ (guarded_time-eq-ok (is_open o.status) o t _ h).2 refl refl
  run_call-IsRecorded (expire_call t) o h =
      replaced-IsRecorded o _ (guarded_time-eq-ok (is_open o.status) o t _ h).2 refl refl
  run_call-IsRecorded (fill_call a) o h = λ r.
      let (total, _, fills, _) = apply_fill_accounts o a h in
      rw (fills, total) (recorded_total o a r)

  -- An order as the engine can come to hold it: created, and then changed by calls that returned.
  pub data Reached : PaperOrder → Type 0 where
    created :
        (request : OrderRequest) (id : Text) (now : Datetime) {o : PaperOrder}
        → create_order rounding request id now ≡ ok o
        → Reached o
    called :
        (c : OrderCall) {o o' : PaperOrder} → Reached o → run_call rounding c o ≡ ok o' → Reached o'

  created-eq-ok :
      (request : OrderRequest) (id : Text) (now : Datetime) {o : PaperOrder}
      → create_order rounding request id now ≡ ok o
      → IsWellFormed rounding o × IsRecorded o
  unfolding create_order
  created-eq-ok request id now {o = o} h = (
    validate_order-IsWellFormed rounding fresh valid,
    replaced-IsRecorded fresh fresh valid refl refl refl,
  )
    where
      fresh : PaperOrder
      fresh = record {
        order_id = strip id;
        request = request;
        status = new;
        created_at = now;
        updated_at = now;
        filled_quantity = pos 0;
        average_fill_price = none;
        rejection_reason = none;
        fills = [];
      }

      valid : validate_order rounding fresh ≡ ok o
      valid = ground arith

  -- Every order that is reached is well formed, and its fills add up to its filled quantity.
  pub Reached-IsRecorded : {o : PaperOrder} → Reached o → IsWellFormed rounding o × IsRecorded o
  Reached-IsRecorded (created request id now h) = created-eq-ok request id now h
  Reached-IsRecorded (called c {o = o} {o' = o'} r h) = (
    (run_call-Moves rounding c o h).well_formed,
    run_call-IsRecorded c o h (Reached-IsRecorded r).1,
  )
