-- ===== src/Orders/FirstFill.antt =====
-- The average price of an order's first fill, as app/paper_trading/orders.py computes it.
use webull_aitrader.Shared.{
  Rounding, ◌≡◌, refl, sym, ap, ◌∙◌, ◌⊎◌, inl, inr, Option, none, some, [], ◌∷◌, ◌++◌, ℤ, pos, ◌+ℤ◌,
  ◌*ℤ◌, ◌<ℤ◌, sum_of, arith, int_laws,
}
use webull_aitrader.Orders.Model.{PaperOrder, notional, fill_quantity}
use webull_aitrader.Orders.Lifecycle.{FillArgs, average_or_zero}
use webull_aitrader.Orders.WellFormed.{IsWellFormed, AverageFits}
use webull_aitrader.Orders.Inversion.{made_fill}
use webull_aitrader.Orders.Fills.{IsRecorded, running_average, recorded_average}

zero_left : (v : ℤ) → pos 0 +ℤ v ≡ v
zero_left v = omega int_laws

zero_right : (v : ℤ) → v +ℤ pos 0 ≡ v
zero_right v = omega int_laws

no_average : (q : ℤ) (a : Option ℤ) → AverageFits q a → q ≡ pos 0 → average_or_zero a ≡ pos 0
no_average q none fits h = refl
no_average q (some a) fits h = not_both (rw h at fits.0)
  where
    not_both : pos 0 <ℤ pos 0 → a ≡ pos 0
    not_both k = ground (arith, k)

nothing_before :
    (rounding : Rounding) (filled average quantity amount total recorded : ℤ)
    → filled ≡ pos 0
    → average ≡ pos 0
    → rounding.times (pos 0) (pos 0) ≡ pos 0
    → rounding.plus (pos 0) amount ≡ amount
    → total ≡ quantity
    → recorded ≡ amount
    → rounding.divide (rounding.plus (rounding.times filled average) amount) (filled +ℤ quantity)
      ≡ rounding.divide recorded total
nothing_before rounding filled average quantity amount total recorded f a t p q r =
    rw (f, a, t, p, q, r, zero_left quantity) refl

module _ (rounding : Rounding) (o : PaperOrder) (a : FillArgs) where
  -- No fill yet, and a notional that the context holds: nothing is rounded before the division.
  pub record IsFirstFill : Type 0 where
    pub none_yet : o.fills ≡ []
    pub nothing_times : rounding.times (pos 0) (pos 0) ≡ pos 0
    pub nothing_plus : rounding.plus (pos 0) (a.quantity *ℤ a.price) ≡ a.quantity *ℤ a.price

  -- The first fill, or one at which the two ways to compute the average agree.
  abbrev pub KeepsAverage : Type 0
  KeepsAverage = IsFirstFill ⊎ (running_average rounding o a ≡ recorded_average rounding o a)

  pub averages_of_KeepsAverage :
      IsWellFormed rounding o
      → IsRecorded o
      → KeepsAverage
      → running_average rounding o a ≡ recorded_average rounding o a
  averages_of_KeepsAverage w r (inr agree) = agree
  averages_of_KeepsAverage w r (inl first) =
      let nothing : o.filled_quantity ≡ pos 0 =
        sym r ∙ ap (λ fs. sum_of fill_quantity fs) first.none_yet in
      let average = no_average o.filled_quantity o.average_fill_price w.average_fits nothing in
      let made = made_fill o a in
      nothing_before rounding o.filled_quantity (average_or_zero o.average_fill_price) a.quantity
        (a.quantity *ℤ a.price) (sum_of fill_quantity (o.fills ++ made ∷ []))
        (sum_of notional (o.fills ++ made ∷ [])) nothing average first.nothing_times
        first.nothing_plus
        (ap (λ fs. sum_of fill_quantity (fs ++ made ∷ [])) first.none_yet ∙ zero_right a.quantity)
        (ap (λ fs. sum_of notional (fs ++ made ∷ [])) first.none_yet
          ∙ zero_right (a.quantity *ℤ a.price))
