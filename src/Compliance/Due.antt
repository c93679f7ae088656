-- ===== src/Compliance/Due.antt =====
-- About `_safe_cash_quantity` in app/compliance/gfv_validator.py from day to day, and the quantity
-- whose funding settles by a day.
use webull_aitrader.Shared.{
  ◌≡◌, refl, ◌∙◌, ℕ, ◌≤◌, Bool, not, ◌&&◌, Option, none, some, List, [], ◌∷◌, ℤ, pos, ◌+ℤ◌, leb,
  int_laws, if◌then◌else◌, Bool-cases, inl, inr, filter, arith,
}
use webull_aitrader.Compliance.Calendar.{max_ordinal}
use webull_aitrader.Compliance.Lots.{
  FundingSource, settled_cash, unsettled_sale_proceeds, provisional_deposit, unknown,
  not_funding_source, PurchaseLot,
}
use webull_aitrader.Compliance.Sell.{
  lot_is_safe, safe_source, is_unknown, is_dated, remaining, safe_cash_quantity, waits, date_key,
  insert_by_date, sort_by_date,
}

abbrev pub part : Bool → PurchaseLot → ℤ
part b lot = if b then remaining lot else pos 0

-- The quantity of the lots whose funding settles by a day.
abbrev pub due : ℕ → List PurchaseLot → ℤ
due d [] = pos 0
due d (x ∷ xs) = part (leb (date_key x) d) x +ℤ due d xs

module _ (d : ℕ) where
  due-insert :
      (x : PurchaseLot) (ys : List PurchaseLot)
      → due d (insert_by_date x ys) ≡ part (leb (date_key x) d) x +ℤ due d ys
  unfolding insert_by_date
  due-insert x [] = refl
  due-insert x (y ∷ ys) =
      let rest = due-insert x ys in
      elim (Bool-cases (leb (date_key x) (date_key y))) [
        | inl first ↦ rw first refl
        | inr later ↦ rw (later, rest) (omega int_laws)
      ]

  pub due-sort : (xs : List PurchaseLot) → due d (sort_by_date xs) ≡ due d xs
  unfolding sort_by_date
  due-sort [] = refl
  due-sort (x ∷ xs) = due-insert x (sort_by_date xs) ∙ rw (due-sort xs) refl

pub zero_left : (r : ℤ) → pos 0 +ℤ r ≡ r
zero_left r = omega int_laws

pub zero_right : (r : ℤ) → r +ℤ pos 0 ≡ r
zero_right r = omega int_laws

part_source :
    (s : FundingSource) (f : Option ℕ) (r : ℤ) (today d : ℕ)
    → today ≤ d
    → (if safe_source s f d then r else pos 0)
      ≡ (if safe_source s f today then r else pos 0)
        +ℤ (if not (safe_source s f today) && not (is_unknown s) && is_dated f
            then (if leb (elim f [ none ↦ max_ordinal | some k ↦ k ]) d then r else pos 0)
            else pos 0)
part_source settled_cash f r today d h = omega int_laws
part_source unknown f r today d h = omega int_laws
part_source unsettled_sale_proceeds none r today d h = omega int_laws
part_source unsettled_sale_proceeds (some k) r today d h =
    ground (arith, zero_left r, zero_right r, zero_left (pos 0))
part_source provisional_deposit none r today d h = omega int_laws
part_source not_funding_source none r today d h = omega int_laws
part_source provisional_deposit (some k) r today d h =
    ground (arith, zero_left r, zero_right r, zero_left (pos 0))
part_source not_funding_source (some k) r today d h =
    ground (arith, zero_left r, zero_right r, zero_left (pos 0))

-- The change of the safe quantity from one day to a later one comes from the lots that wait.
module _ (today d : ℕ) (later : today ≤ d) where
  part-waits :
      (x : PurchaseLot)
      → part (lot_is_safe x d) x
        ≡ part (lot_is_safe x today) x
          +ℤ (if waits today x then part (leb (date_key x) d) x else pos 0)
  unfolding lot_is_safe
  part-waits x = part_source x.funding_source x.funding_settlement_date (remaining x) today d later

  due-filter :
      (x : PurchaseLot) (xs : List PurchaseLot)
      → due d (filter (waits today) (x ∷ xs))
        ≡ (if waits today x then part (leb (date_key x) d) x else pos 0)
          +ℤ due d (filter (waits today) xs)
  due-filter x xs = elim (Bool-cases (waits today x)) [
    | inl t ↦ rw t refl
    | inr f ↦ rw f (omega int_laws)
  ]

safe_step :
    (d : ℕ) (x : PurchaseLot) (xs : List PurchaseLot)
    → safe_cash_quantity (x ∷ xs) d ≡ part (lot_is_safe x d) x +ℤ safe_cash_quantity xs d
unfolding safe_cash_quantity
safe_step d x xs = elim (Bool-cases (lot_is_safe x d)) [
  | inl t ↦ rw t refl
  | inr f ↦ rw f (omega int_laws)
]

safe_nil : (d : ℕ) → safe_cash_quantity [] d ≡ pos 0
unfolding safe_cash_quantity
safe_nil d = refl

pub safe_later :
    (today d : ℕ) (lots : List PurchaseLot)
    → today ≤ d
    → safe_cash_quantity lots d ≡ safe_cash_quantity lots today +ℤ due d (filter (waits today) lots)
safe_later today d [] h = rw (safe_nil d, safe_nil today) (omega int_laws)
safe_later today d (x ∷ xs) h =
    let rest = safe_later today d xs h in
    rw
      (
        safe_step d x xs,
        safe_step today x xs,
        due-filter today d h x xs,
        part-waits today d h x,
        rest,
      )
      (omega int_laws)
