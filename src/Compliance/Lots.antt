-- ===== src/Compliance/Lots.antt =====
-- app/compliance/models.py and settlement_ledger.py: the purchase lots and their ledger. A quantity
-- is what Python finds in the field, so that the checks of its type are checks of the model.
use webull_aitrader.Shared.{
  ℕ, Bool, false, not, Option, some, List, [], ◌∷◌, ◌++◌, ℤ, pos, ltb_ℤ, leb_ℤ, Text, strip,
  normalize, is_empty, Result, ok, err, ◌>>=◌, ◌>>◌, raise_if, Datetime, lacks_tzinfo,
}
use webull_aitrader.Compliance.Calendar.{CalendarError, settlement_date}

pub data AccountType : Type 0 where
  cash margin : AccountType

pub data FundingSource : Type 0 where
  settled_cash unsettled_sale_proceeds provisional_deposit unknown : FundingSource
  -- what stands in the field without being a `FundingSource`
  not_funding_source : FundingSource

pub data SecurityType : Type 0 where
  stock option : SecurityType

-- A field that should hold a Decimal.
pub data Amount : Type 0 where
  not_decimal : Amount
  -- NaN and the infinities
  not_finite : Amount
  finite : ℤ → Amount

-- `_positive_finite`
abbrev pub positive_finite : Amount → Bool
positive_finite not_decimal = false
positive_finite not_finite = false
positive_finite (finite v) = ltb_ℤ (pos 0) v

-- `_nonnegative_finite`
abbrev pub nonnegative_finite : Amount → Bool
nonnegative_finite not_decimal = false
nonnegative_finite not_finite = false
nonnegative_finite (finite v) = leb_ℤ (pos 0) v

-- The value of an amount that the checks let through.
abbrev pub value_of : Amount → ℤ
value_of not_decimal = pos 0
value_of not_finite = pos 0
value_of (finite v) = v

-- `PurchaseLot`. Its symbol, purchase timestamp and settlement date have the types that they are
-- annotated with; no check of the code is about another type in the settlement date.
pub record PurchaseLot : Type 0 where
  pub symbol : Text
  pub quantity : Amount
  pub purchase_timestamp : Datetime
  pub funding_source : FundingSource
  pub funding_settlement_date : Option ℕ
  pub remaining_quantity : Amount

pub data LotError : Type 0 where
  empty_symbol bad_quantity bad_remaining remaining_exceeds_quantity naive_timestamp : LotError
  calendar_failed : CalendarError → LotError

-- `PurchaseLot.__post_init__`
unfoldable pub validate_lot : PurchaseLot → Result LotError PurchaseLot
validate_lot lot =
    raise_if (is_empty (strip lot.symbol)) empty_symbol
    >> raise_if (not (positive_finite lot.quantity)) bad_quantity
    >> raise_if (not (nonnegative_finite lot.remaining_quantity)) bad_remaining
    >> raise_if (ltb_ℤ (value_of lot.quantity) (value_of lot.remaining_quantity))
        remaining_exceeds_quantity
    >> raise_if (lacks_tzinfo lot.purchase_timestamp.zone) naive_timestamp
    >> ok lot

-- `SettlementLedger`: its lots, the latest last.
abbrev pub SettlementLedger : Type 0
SettlementLedger = List PurchaseLot

unfoldable pub record_purchase :
    SettlementLedger
    → Text
    → Amount
    → Datetime
    → FundingSource
    → Option ℕ
    → Result LotError SettlementLedger
record_purchase lots symbol quantity purchase_timestamp funding_source funding_settlement_date = do
  lot ← validate_lot (record {
    symbol = normalize symbol;
    quantity = quantity;
    purchase_timestamp = purchase_timestamp;
    funding_source = funding_source;
    funding_settlement_date = funding_settlement_date;
    remaining_quantity = quantity;
  })
  ok (lots ++ lot ∷ [])

-- `calendar.settlement_date(funding_sale_trade_date, settlement_days=1)` as a step of the ledger.
abbrev pub lot_result : Result CalendarError ℕ → Result LotError ℕ
lot_result (ok d) = ok d
lot_result (err e) = err (calendar_failed e)

-- The security type is one of the two for every value of the type, so its check passes.
unfoldable pub record_purchase_funded_by_sale :
    SettlementLedger
    → Text
    → Amount
    → Datetime
    → ℕ
    → SecurityType
    → List ℕ
    → Result LotError SettlementLedger
record_purchase_funded_by_sale lots symbol quantity purchase_timestamp trade_date security_type
      holidays =
    do
      settlement ← lot_result (settlement_date holidays trade_date (pos 1))
      record_purchase lots symbol quantity purchase_timestamp unsettled_sale_proceeds
          (some settlement)
