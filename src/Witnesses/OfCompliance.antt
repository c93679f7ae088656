-- ===== src/Witnesses/OfCompliance.antt =====
-- The theorems on the settlement rules, at sample lots and requests.
use webull_aitrader.Shared.{
  ◌≡◌, refl, true, none, some, [], ◌∷◌, ◌++◌, ℕ, pos, leb, ok, is_ok, codes, arith, strip, lstrip,
  rstrip, normalize,
}
use webull_aitrader.Compliance.Calendar.{
  settlement_date, add_market_business_days, advance, is_market_business_day,
}
use webull_aitrader.Compliance.Calendar.Laws.{
  IsFirst, business_days, settlement_date-IsFirst, settlement_date-is_ok,
}
use webull_aitrader.Compliance.Lots.{
  cash, finite, stock, PurchaseLot, validate_lot, record_purchase, record_purchase_funded_by_sale,
}
use webull_aitrader.Compliance.Sell.{
  SellRequest, SellComplianceDecision, lot_is_safe, valid_lot, lots_of, member, safe_cash_quantity,
  date_when_quantity_is_safe, lot_is_safe,
}
use webull_aitrader.Compliance.Evaluate.{evaluate_sell_compliance}
use webull_aitrader.Compliance.Approval.{GoodDecision}
use webull_aitrader.Compliance.Requests.{IsSound, evaluate-GoodDecision, evaluate_total, Decides}
use webull_aitrader.Compliance.NextDate.{IsNextDate, date_when_quantity_is_safe-IsNextDate}
use webull_aitrader.Compliance.Ledger.{record_purchase_funded_by_sale-is_safe}
use webull_aitrader.Witnesses.Samples.{clock, settled_lot, waiting_lot, sale}

-- The day 738001 is a Friday, so the next business day is three days on.
settlement_date-IsFirst_example : IsFirst [] 738001 1 738004
unfolding settlement_date add_market_business_days advance is_market_business_day
settlement_date-IsFirst_example = settlement_date-IsFirst [] 738001 1 refl

settlement_date-is_ok_example : is_ok (settlement_date [] 3652050 (pos 2)) ≡ true
unfolding is_market_business_day business_days
settlement_date-is_ok_example = settlement_date-is_ok [] 3652050 2 (omega arith)

sound_sale : IsSound sale
unfolding strip lstrip rstrip
sound_sale = record {
  symbol = codes "aapl";
  symbol_given = refl;
  symbol_present = refl;
  quantity = pos 8;
  quantity_given = refl;
  quantity_positive = omega arith;
  account = member cash;
  account_given = refl;
  account_named = tt;
  now = clock 2;
  now_given = refl;
  now_aware = refl;
  lots = settled_lot ∷ waiting_lot ∷ [];
  lots_given = refl;
  lots_valid = (refl, (refl, tt));
}

evaluate-GoodDecision_example :
    (d : SellComplianceDecision) × (evaluate_sell_compliance sale ≡ ok d)
    × GoodDecision
        (pos 8)
        (some (member cash))
        738000
        (lots_of (codes "aapl") (settled_lot ∷ waiting_lot ∷ []))
        d
unfolding sound_sale
evaluate-GoodDecision_example = evaluate-GoodDecision sale sound_sale

-- A sale with no account type.
abbrev unclear_sale : SellRequest
unclear_sale = record sale { account_type = none }

evaluate_total_example : Decides unclear_sale
evaluate_total_example = evaluate_total unclear_sale

date_when_quantity_is_safe-IsNextDate_example :
    IsNextDate 738000
      (pos 8)
      (safe_cash_quantity (settled_lot ∷ waiting_lot ∷ []))
      (date_when_quantity_is_safe (settled_lot ∷ waiting_lot ∷ []) 738000 (pos 8))
date_when_quantity_is_safe-IsNextDate_example =
    date_when_quantity_is_safe-IsNextDate (settled_lot ∷ waiting_lot ∷ []) 738000 (pos 8)
      (omega arith, (omega arith, tt))

recorded_purchase :
    record_purchase_funded_by_sale [] (codes " aapl") (finite (pos 5)) (clock 1) 738000 stock []
    ≡ ok (record waiting_lot { funding_settlement_date = some 738001 } ∷ [])
unfolding record_purchase_funded_by_sale settlement_date is_market_business_day record_purchase
    validate_lot strip normalize
recorded_purchase = refl

record_purchase_funded_by_sale-is_safe_example :
    (lot : PurchaseLot) × (settlement : ℕ) × ((record waiting_lot {
      funding_settlement_date = some 738001;
    }
        ∷ [])
      ≡ [] ++ lot ∷ [])
    × (valid_lot lot ≡ true)
    × IsFirst [] 738000 1 settlement
    × ((today : ℕ) → lot_is_safe lot today ≡ leb settlement today)
record_purchase_funded_by_sale-is_safe_example =
    record_purchase_funded_by_sale-is_safe [] (codes " aapl") (finite (pos 5)) (clock 1) 738000
      stock [] recorded_purchase
