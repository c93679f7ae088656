-- ===== src/Compliance/Approval.antt =====
-- About the decision that `evaluate_sell_compliance` of app/compliance/gfv_validator.py makes on the
-- lots of a symbol.
use webull_aitrader.Shared.{
  ◌≡◌, ◌||◌, refl, ◌↔◌, ℕ, Bool, true, Option, none, List, [], ◌∷◌, ℤ, pos, ◌-ℤ◌, ◌≤ℤ◌, ◌<ℤ◌,
  -ℤ_parts, ltb_ℤ, leb_ℤ, max_ℤ, int_laws, if◌then◌else◌, Bool-cases, inl, inr, filter, sum_of, All,
  All-filter, ok, arith,
}
use webull_aitrader.Compliance.Lots.{PurchaseLot}
use webull_aitrader.Compliance.Sell.{
  AccountArgument, SellComplianceDecision, validate_decision, remaining, safe_cash_quantity,
  date_when_quantity_is_safe, is_margin,
}
use webull_aitrader.Compliance.Evaluate.{decide}

-- A lot holds no negative quantity.
abbrev pub IsNonneg : PurchaseLot → Type 0
IsNonneg lot = pos 0 ≤ℤ remaining lot

sum_of_nonneg : (lots : List PurchaseLot) → All IsNonneg lots → pos 0 ≤ℤ sum_of remaining lots
sum_of_nonneg [] h = omega arith
sum_of_nonneg (x ∷ xs) h = let rest = sum_of_nonneg xs h.1 in omega (int_laws, h.0)

sum_of-filter_le :
    (p : PurchaseLot → Bool) (lots : List PurchaseLot)
    → All IsNonneg lots
    → sum_of remaining (filter p lots) ≤ℤ sum_of remaining lots
sum_of-filter_le p [] h = omega arith
sum_of-filter_le p (x ∷ xs) h =
    let rest = sum_of-filter_le p xs h.1 in
    elim (Bool-cases (p x)) [
      | inl t ↦ rw t (omega (int_laws, h.0))
      | inr f ↦ rw f (omega (int_laws, h.0))
    ]

safe_cash_quantity_bounds :
    (lots : List PurchaseLot) (today : ℕ)
    → All IsNonneg lots
    → (pos 0 ≤ℤ safe_cash_quantity lots today)
      × (safe_cash_quantity lots today ≤ℤ sum_of remaining lots)
unfolding safe_cash_quantity
safe_cash_quantity_bounds lots today h =
    (sum_of_nonneg _ (All-filter IsNonneg _ lots h), sum_of-filter_le _ lots h)

-- What a decision says, for a positive request on lots that hold no negative quantity.
pub record GoodDecision (requested : ℤ) (account : Option AccountArgument) (today : ℕ)
    (lots : List PurchaseLot) (d : SellComplianceDecision) : Type 0 where
  pub asked : d.requested_quantity ≡ requested
  -- the part that can be sold now: all the lots on margin, the safe ones otherwise
  pub safe :
      d.safe_sell_quantity
      ≡ (if is_margin account then sum_of remaining lots else safe_cash_quantity lots today)
  pub approved_iff : (d.approved ≡ true) ↔ (requested ≤ℤ d.safe_sell_quantity)
  pub restricted : d.restricted_quantity ≡ max_ℤ (pos 0) (requested -ℤ d.safe_sell_quantity)
  -- off margin, within the position and beyond the safe part: the day that
  -- `_date_when_quantity_is_safe` finds
  pub next_date : d.next_eligible_sell_date ≡ (
      if is_margin account
        || ltb_ℤ (sum_of remaining lots) requested
        || leb_ℤ requested (safe_cash_quantity lots today)
      then none
      else date_when_quantity_is_safe lots today requested)
  pub never_beyond : d.safe_sell_quantity ≤ℤ sum_of remaining lots

pub validate_decision_lem :
    (d : SellComplianceDecision)
    → pos 0 ≤ℤ d.requested_quantity
    → pos 0 ≤ℤ d.safe_sell_quantity
    → pos 0 ≤ℤ d.restricted_quantity
    → validate_decision d ≡ ok d
unfolding validate_decision
validate_decision_lem d a b c = ground arith

short_by : (r s : ℤ) → s <ℤ r → r -ℤ s ≡ max_ℤ (pos 0) (r -ℤ s)
short_by r s h = let below = -ℤ_parts r s in ground arith

covered : (r s : ℤ) → r ≤ℤ s → pos 0 ≡ max_ℤ (pos 0) (r -ℤ s)
covered r s h = let below = -ℤ_parts r s in ground arith

max_nonneg : (r x : ℤ) → x ≡ max_ℤ (pos 0) r → pos 0 ≤ℤ x
max_nonneg r x h = rw h ground arith

module _ (requested : ℤ) (account : Option AccountArgument) (today : ℕ) (lots : List PurchaseLot)
    (positive : pos 0 ≤ℤ requested) (good : All IsNonneg lots) where
  decided :
      (d : SellComplianceDecision)
      → pos 0 ≤ℤ d.safe_sell_quantity
      → GoodDecision requested account today lots d
      → (e : SellComplianceDecision) × (validate_decision d ≡ ok e)
        × GoodDecision requested account today lots e
  decided d h g = (
    d,
    validate_decision_lem d (rw g.asked positive) h
        (max_nonneg (requested -ℤ d.safe_sell_quantity) _ g.restricted),
    g,
  )

  pub decide-GoodDecision :
      (d : SellComplianceDecision) × (decide requested account today lots ≡ ok d)
      × GoodDecision requested account today lots d
  unfolding decide
  decide-GoodDecision =
      let total = sum_of_nonneg lots good in
      let safe = safe_cash_quantity_bounds lots today good in
      elim (Bool-cases (ltb_ℤ (sum_of remaining lots) requested)) [
        | inl over ↦ elim (Bool-cases (is_margin account)) [
          | inl on_margin ↦
              rw (over, on_margin)
                (decided _ total record {
                  asked = refl;
                  safe = rw on_margin refl;
                  approved_iff = ground arith;
                  restricted = short_by _ _ (ground arith);
                  next_date = rw on_margin refl;
                  never_beyond = omega (arith, total);
                })
          | inr on_cash ↦
              rw (over, on_cash)
                (decided _ safe.0 record {
                  asked = refl;
                  safe = rw on_cash refl;
                  approved_iff = ground arith;
                  restricted = short_by _ _ (ground arith);
                  next_date = rw (on_cash, over) refl;
                  never_beyond = omega (arith, safe);
                })
        ]
        | inr within ↦ elim (Bool-cases (is_margin account)) [
          | inl on_margin ↦
              rw (within, on_margin)
                (decided _ total record {
                  asked = refl;
                  safe = rw on_margin refl;
                  approved_iff = ground arith;
                  restricted = covered _ _ (ground arith);
                  next_date = rw on_margin refl;
                  never_beyond = omega (arith, total);
                })
          | inr on_cash ↦ elim (Bool-cases (leb_ℤ requested (safe_cash_quantity lots today))) [
            | inl enough ↦
                rw (within, on_cash, enough)
                  (decided _ safe.0 record {
                    asked = refl;
                    safe = rw on_cash refl;
                    approved_iff = ground arith;
                    restricted = covered _ _ (ground arith);
                    next_date = rw (on_cash, within, enough) refl;
                    never_beyond = omega (arith, safe);
                  })
            | inr short ↦
                rw (within, on_cash, short)
                  (decided _ safe.0 record {
                    asked = refl;
                    safe = rw on_cash refl;
                    approved_iff = ground arith;
                    restricted = refl;
                    next_date = rw (on_cash, within, short) refl;
                    never_beyond = omega (arith, safe);
                  })
          ]
        ]
      ]
