-- ===== src/Compliance/Ledger.antt =====
-- What the settlement ledger of app/compliance/settlement_ledger.py records.
use webull_aitrader.Shared.{
  ◌≡◌, refl, ap, ℕ, true, Option, some, List, [], ◌∷◌, ◌++◌, pos, leb, Text, normalize, Datetime,
  Result, ok, err, ok-injective, >>=-eq-ok, arith,
}
use webull_aitrader.Compliance.Calendar.{CalendarError, settlement_date}
use webull_aitrader.Compliance.Calendar.Laws.{IsFirst, settlement_date-IsFirst}
use webull_aitrader.Compliance.Lots.{
  FundingSource, unsettled_sale_proceeds, SecurityType, Amount, not_decimal, not_finite, finite,
  PurchaseLot, validate_lot, SettlementLedger, record_purchase, lot_result,
  record_purchase_funded_by_sale,
}
use webull_aitrader.Compliance.Sell.{is_source, lot_is_safe, valid_lot}

abbrev made_lot : Text → Amount → Datetime → FundingSource → Option ℕ → PurchaseLot
made_lot symbol q t s f = record {
  symbol = normalize symbol;
  quantity = q;
  purchase_timestamp = t;
  funding_source = s;
  funding_settlement_date = f;
  remaining_quantity = q;
}

record_purchase_lem :
    (lots : SettlementLedger) (symbol : Text) (q : Amount) (t : Datetime) (s : FundingSource)
    (f : Option ℕ) {lots' : SettlementLedger}
    → is_source s ≡ true
    → record_purchase lots symbol q t s f ≡ ok lots'
    → (lot : PurchaseLot) × (lots' ≡ lots ++ lot ∷ [])
      × (valid_lot lot ≡ true)
      × (lot.funding_source ≡ s)
      × (lot.funding_settlement_date ≡ f)
unfolding record_purchase validate_lot
record_purchase_lem lots symbol not_decimal t s f is h = ground (arith, h)
record_purchase_lem lots symbol not_finite t s f is h = ground (arith, h)
record_purchase_lem lots symbol (finite v) t s f is h =
    (made_lot symbol (finite v) t s f, ground (arith, h), ground (arith, h, is), refl, refl)

lot_result_lem : (m : Result CalendarError ℕ) {d : ℕ} → lot_result m ≡ ok d → m ≡ ok d
lot_result_lem (ok d) h = ap ok (ok-injective h)
lot_result_lem (err e) h = cc

-- A purchase that a sale funds adds one valid lot at the end of the ledger; the lot counts as safe to
-- sell from the first market business day after the trade date of the sale on, and not before.
pub record_purchase_funded_by_sale-is_safe :
    (lots : SettlementLedger) (symbol : Text) (q : Amount) (t : Datetime) (trade_date : ℕ)
    (kind : SecurityType) (holidays : List ℕ) {lots' : SettlementLedger}
    → record_purchase_funded_by_sale lots symbol q t trade_date kind holidays ≡ ok lots'
    → (lot : PurchaseLot) × (settlement : ℕ) × (lots' ≡ lots ++ lot ∷ [])
      × (valid_lot lot ≡ true)
      × IsFirst holidays trade_date 1 settlement
      × ((today : ℕ) → lot_is_safe lot today ≡ leb settlement today)
unfolding record_purchase_funded_by_sale lot_is_safe
record_purchase_funded_by_sale-is_safe lots symbol q t trade_date kind holidays h =
    let m = >>=-eq-ok (lot_result (settlement_date holidays trade_date (pos 1))) _ h in
    let lot = record_purchase_lem lots symbol q t unsettled_sale_proceeds (some m.0) refl m.2 in
    (
      lot.0,
      m.0,
      lot.1,
      lot.2,
      settlement_date-IsFirst holidays trade_date 1 (lot_result_lem _ m.1),
      λ today. rw (lot.3, lot.4) refl,
    )
