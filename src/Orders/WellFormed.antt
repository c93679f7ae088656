-- ===== src/Orders/WellFormed.antt =====
-- What the validation of an order in app/paper_trading/order_models.py means, as conditions on the
-- record.
use webull_aitrader.Shared.{
  Rounding, ◌≡◌, ◌↔◌, refl, Bool, true, false, not, Option, none, some, List, [], ◌∷◌, Text, ℤ, pos,
  ◌≤◌, ◌<ℤ◌, ◌≤ℤ◌, sum_of, any, All, is_empty, strip, strip-strip, is_some, lacks_offset, ok, arith,
  eqb_ℤ, raise_if, ap, ◌∙◌, ◌>>◌, ltb, raise_if-eq-ok, >>-eq-ok, ok-injective,
}
use webull_aitrader.Orders.Model.{
  OrderStatus, new, accepted, partially_filled, filled, cancelled, rejected, expired, Fill,
  PaperOrder, notional, fill_quantity,
}
use webull_aitrader.Orders.Validate.{
  check_amounts, check_fills, check_status, validate_order, strip_or_none, belongs_to, average_is,
}
use mathlib.Core.Path.{subst}
use webull_aitrader.Orders.Model.{foreign_fill, fills_quantity_mismatch, fills_average_mismatch}

-- An average price stands beside a positive filled quantity, and only there.
abbrev pub AverageFits : ℤ → Option ℤ → Type 0
AverageFits filled_quantity none = filled_quantity ≡ pos 0
AverageFits filled_quantity (some a) = (pos 0 <ℤ filled_quantity) × (pos 0 <ℤ a)

-- A fill record, if one is kept, accounts for the filled quantity and the average price.
abbrev pub FillsFit : Rounding → Text → ℤ → Option ℤ → List Fill → Type 0
FillsFit rounding id filled_quantity average [] = Unit {0}
FillsFit rounding id filled_quantity average (f ∷ fs) =
    All (λ g. belongs_to id g ≡ true) (f ∷ fs)
    × (sum_of fill_quantity (f ∷ fs) ≡ filled_quantity)
    × (average ≡ some (rounding.divide (sum_of notional (f ∷ fs)) (sum_of fill_quantity (f ∷ fs))))

abbrev pub StatusFits : OrderStatus → ℤ → ℤ → Option Text → Type 0
StatusFits rejected quantity filled_quantity reason =
    (filled_quantity ≡ pos 0) × (is_some reason ≡ true)
StatusFits filled quantity filled_quantity reason = (filled_quantity ≡ quantity) × (reason ≡ none)
StatusFits partially_filled quantity filled_quantity reason =
    (pos 0 <ℤ filled_quantity) × (filled_quantity <ℤ quantity) × (reason ≡ none)
StatusFits _ quantity filled_quantity reason = reason ≡ none

pub record IsWellFormed (rounding : Rounding) (o : PaperOrder) : Type 0 where
  pub id_present : is_empty o.order_id ≡ false
  pub id_stripped : strip o.order_id ≡ o.order_id
  pub created_aware : lacks_offset o.created_at.zone ≡ false
  pub updated_aware : lacks_offset o.updated_at.zone ≡ false
  pub time_ordered : o.created_at.instant ≤ o.updated_at.instant
  pub filled_nonneg : pos 0 ≤ℤ o.filled_quantity
  pub filled_bounded : o.filled_quantity ≤ℤ o.request.quantity
  pub average_fits : AverageFits o.filled_quantity o.average_fill_price
  pub fills_fit : FillsFit rounding o.order_id o.filled_quantity o.average_fill_price o.fills
  pub reason_stripped : strip_or_none o.rejection_reason ≡ o.rejection_reason
  pub status_fits : StatusFits o.status o.request.quantity o.filled_quantity o.rejection_reason

pub any-not :
    (p : Fill → Bool) (fs : List Fill)
    → (any (λ g. not (p g)) fs ≡ false) ↔ All (λ g. p g ≡ true) fs
any-not p [] = (λ h. tt, λ h. refl)
any-not p (f ∷ fs) = ground (arith, any-not p fs)

pub check_amounts_iff :
    (q f : ℤ) (a : Option ℤ)
    → (check_amounts q f a ≡ ok tt) ↔ ((pos 0 ≤ℤ f) × (f ≤ℤ q) × AverageFits f a)
unfolding check_amounts
check_amounts_iff q f none = ground arith
check_amounts_iff q f (some a) = ground arith

pub check_status_iff :
    (s : OrderStatus) (q f : ℤ) (r : Option Text)
    → (check_status s q f r ≡ ok tt) ↔ StatusFits s q f r
unfolding check_status
check_status_iff rejected q f r = ground arith
check_status_iff filled q f r = ground arith
check_status_iff partially_filled q f r = ground arith
check_status_iff new q f r = ground arith
check_status_iff accepted q f r = ground arith
check_status_iff cancelled q f r = ground arith
check_status_iff expired q f r = ground arith

-- The three checks of `check_fills`, over the values that they compare.
fills_checks_iff :
    (foreign : Bool) (total q d : ℤ) (a : Option ℤ)
    → ((raise_if foreign foreign_fill
          >> (raise_if (not (eqb_ℤ total q)) fills_quantity_mismatch
              >> raise_if (not (average_is d a)) fills_average_mismatch))
        ≡ ok tt)
      ↔ ((foreign ≡ false) × (total ≡ q) × (a ≡ some d))
fills_checks_iff foreign total q d none = ground arith
fills_checks_iff foreign total q d (some a) = ground arith

strip_or_none-strip_or_none : (r : Option Text) → strip_or_none (strip_or_none r) ≡ strip_or_none r
strip_or_none-strip_or_none none = refl
strip_or_none-strip_or_none (some t) = ground (arith, strip-strip t)

module _ (rounding : Rounding) where
  pub check_fills_iff :
      (id : Text) (q : ℤ) (a : Option ℤ) (fs : List Fill)
      → (check_fills rounding id q a fs ≡ ok tt) ↔ FillsFit rounding id q a fs
  unfolding check_fills
  check_fills_iff id q a [] = (λ h. tt, λ h. refl)
  check_fills_iff id q a (f ∷ fs) =
      let total = sum_of fill_quantity (f ∷ fs) in
      let average = rounding.divide (sum_of notional (f ∷ fs)) total in
      let checks = fills_checks_iff (any (λ g. not (belongs_to id g)) (f ∷ fs)) total q average a in
      let own = any-not (belongs_to id) (f ∷ fs) in
      (
        λ h. (own.0 (checks.0 h).0, (checks.0 h).1, (checks.0 h).2),
        λ h. checks.1 (own.1 h.0, h.1, h.2),
      )

  -- The record that validation returns.
  abbrev pub normalized_order : PaperOrder → PaperOrder
  normalized_order o = record o {
    order_id = strip o.order_id;
    rejection_reason = strip_or_none o.rejection_reason;
  }

  abbrev pub Passes : PaperOrder → Type 0
  Passes o =
      (is_empty (strip o.order_id) ≡ false)
      × (lacks_offset o.created_at.zone ≡ false)
      × (lacks_offset o.updated_at.zone ≡ false)
      × (ltb o.updated_at.instant o.created_at.instant ≡ false)
      × (check_amounts o.request.quantity o.filled_quantity o.average_fill_price ≡ ok tt)
      × (check_fills rounding (strip o.order_id) o.filled_quantity o.average_fill_price o.fills
          ≡ ok tt)
      × (check_status o.status o.request.quantity o.filled_quantity
            (strip_or_none o.rejection_reason)
          ≡ ok tt)

  pub validate_order-eq-ok :
      (o : PaperOrder) {o' : PaperOrder}
      → validate_order rounding o ≡ ok o'
      → Passes o × (normalized_order o ≡ o')
  unfolding validate_order
  validate_order-eq-ok o h =
      let a = raise_if-eq-ok _ _ _ h in
      let b = raise_if-eq-ok _ _ _ a.1 in
      let c = raise_if-eq-ok _ _ _ b.1 in
      let d = raise_if-eq-ok _ _ _ c.1 in
      let e = >>-eq-ok _ _ d.1 in
      let f = >>-eq-ok _ _ e.1 in
      let g = >>-eq-ok _ _ f.1 in ((a.0, b.0, c.0, d.0, e.0, f.0, g.0), ok-injective g.1)

  validate_order_of_Passes :
      (o : PaperOrder) → Passes o → validate_order rounding o ≡ ok (normalized_order o)
  unfolding validate_order
  validate_order_of_Passes o (a, b, c, d, e, f, g) = rw (a, b, c, d, e, f, g)

  Passes-IsWellFormed : (o : PaperOrder) → Passes o → IsWellFormed rounding (normalized_order o)
  Passes-IsWellFormed o (a, b, c, d, e, f, g) =
      let amounts =
        (check_amounts_iff o.request.quantity o.filled_quantity o.average_fill_price).0 e in
      record {
        id_present = a;
        id_stripped = strip-strip o.order_id;
        created_aware = b;
        updated_aware = c;
        time_ordered = ground arith;
        filled_nonneg = amounts.0;
        filled_bounded = amounts.1;
        average_fits = amounts.2;
        fills_fit =
            (check_fills_iff (strip o.order_id) o.filled_quantity o.average_fill_price o.fills).0 f;
        reason_stripped = strip_or_none-strip_or_none o.rejection_reason;
        status_fits =
            (check_status_iff o.status o.request.quantity o.filled_quantity
                (strip_or_none o.rejection_reason)).0
              g;
      }

  -- An order that validation returns meets every condition of a well-formed order.
  pub validate_order-IsWellFormed :
      (o : PaperOrder) {o' : PaperOrder}
      → validate_order rounding o ≡ ok o'
      → IsWellFormed rounding o'
  validate_order-IsWellFormed o h =
      let v = validate_order-eq-ok o h in
      subst (IsWellFormed rounding) v.1 (Passes-IsWellFormed o v.0)

  -- A well-formed order passes validation, and comes back as it was.
  pub validate_order_of_IsWellFormed :
      (o : PaperOrder) → IsWellFormed rounding o → validate_order rounding o ≡ ok o
  validate_order_of_IsWellFormed o w = validate_order_of_Passes o passes ∙ ap ok same
    where
      same : normalized_order o ≡ o
      same = λ i. record o { order_id = w.id_stripped i; rejection_reason = w.reason_stripped i }

      passes : Passes o
      passes = (
        rw w.id_stripped w.id_present,
        w.created_aware,
        w.updated_aware,
        ground arith,
        (check_amounts_iff _ _ _).1 (w.filled_nonneg, w.filled_bounded, w.average_fits),
        rw w.id_stripped ((check_fills_iff _ _ _ _).1 w.fills_fit),
        rw w.reason_stripped ((check_status_iff o.status _ _ _).1 w.status_fits),
      )
