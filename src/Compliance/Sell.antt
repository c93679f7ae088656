-- ===== src/Compliance/Sell.antt =====
-- app/compliance/gfv_validator.py and the decision of models.py: whether a sale is free of a Good
-- Faith Violation. The fixed texts of reasons and warnings are the constructors of a type.
use webull_aitrader.Shared.{
  ℕ, Bool, true, false, not, ◌&&◌, ◌||◌, Option, none, some, List, [], ◌∷◌, ◌++◌, map, ℤ, pos, ◌+ℤ◌,
  leb, leb_ℤ, if◌then◌else◌, any, filter, sum_of, Text, codes, strip, normalize, is_empty, text_eq,
  Result, ok, ◌>>◌, raise_if, Datetime, lacks_tzinfo,
}
use webull_aitrader.Compliance.Calendar.{max_ordinal}
use webull_aitrader.Compliance.Lots.{
  AccountType, cash, margin, FundingSource, settled_cash, unsettled_sale_proceeds,
  provisional_deposit, unknown, not_funding_source, Amount, positive_finite, nonnegative_finite,
  value_of, PurchaseLot,
}

-- `AccountType` is a `StrEnum`, so its members equal the plain texts of their values.
pub data AccountArgument : Type 0 where
  member : AccountType → AccountArgument
  plain : Text → AccountArgument

-- `account_type in (AccountType.CASH, AccountType.MARGIN)`
abbrev pub names_account : AccountArgument → Bool
names_account (member a) = true
names_account (plain t) = text_eq t (codes "CASH") || text_eq t (codes "MARGIN")

-- The arguments of `evaluate_sell_compliance`; `none` stands for a value of another type.
pub record SellRequest : Type 0 where
  pub symbol : Option Text
  pub quantity : Amount
  pub account_type : Option AccountArgument
  pub timestamp : Option Datetime
  pub lots : Option (List PurchaseLot)

pub data Complaint : Type 0 where
  symbol_malformed quantity_malformed account_unknown timestamp_naive lots_malformed lot_uncertain :
      Complaint

pub data Reason : Type 0 where
  malformed_request exceeds_position margin_approved approved_safe exceeds_safe : Reason

pub data Warning : Type 0 where
  complaint : Complaint → Warning
  new_request_required not_reduced safe_is_informational eligibility_undetermined : Warning

pub record SellComplianceDecision : Type 0 where
  pub approved : Bool
  pub approval_reason : Reason
  pub requested_quantity : ℤ
  pub safe_sell_quantity : ℤ
  pub restricted_quantity : ℤ
  pub next_eligible_sell_date : Option ℕ
  pub warnings : List Warning

pub data DecisionError : Type 0 where
  negative_quantity : DecisionError

-- `SellComplianceDecision.__post_init__`; the reasons are texts that are not empty.
unfoldable pub validate_decision :
    SellComplianceDecision → Result DecisionError SellComplianceDecision
validate_decision d =
    raise_if
      (not (leb_ℤ (pos 0) d.requested_quantity)
        || not (leb_ℤ (pos 0) d.safe_sell_quantity)
        || not (leb_ℤ (pos 0) d.restricted_quantity))
      negative_quantity
    >> ok d

-- `date is not None and current_date >= date`
abbrev pub reached : Option ℕ → ℕ → Bool
reached none current_date = false
reached (some d) current_date = leb d current_date

-- `_lot_is_safe`
abbrev pub safe_source : FundingSource → Option ℕ → ℕ → Bool
safe_source settled_cash d current_date = true
safe_source unknown d current_date = false
safe_source unsettled_sale_proceeds d current_date = reached d current_date
safe_source provisional_deposit d current_date = reached d current_date
safe_source not_funding_source d current_date = reached d current_date

unfoldable pub lot_is_safe : PurchaseLot → ℕ → Bool
lot_is_safe lot current_date =
    safe_source lot.funding_source lot.funding_settlement_date current_date

abbrev pub remaining : PurchaseLot → ℤ
remaining lot = value_of lot.remaining_quantity

-- `_safe_cash_quantity`, at the day of `now`
unfoldable pub safe_cash_quantity : List PurchaseLot → ℕ → ℤ
safe_cash_quantity lots today = sum_of remaining (filter (λ lot. lot_is_safe lot today) lots)

abbrev pub is_unknown : FundingSource → Bool
is_unknown settled_cash = false
is_unknown unsettled_sale_proceeds = false
is_unknown provisional_deposit = false
is_unknown unknown = true
is_unknown not_funding_source = false

-- `isinstance(value, FundingSource)`
abbrev pub is_source : FundingSource → Bool
is_source not_funding_source = false
is_source _ = true

abbrev pub is_dated : Option ℕ → Bool
is_dated none = false
is_dated (some d) = true

-- The condition of the generator in `_date_when_quantity_is_safe`.
abbrev pub waits : ℕ → PurchaseLot → Bool
waits today lot =
    not (lot_is_safe lot today)
    && not (is_unknown lot.funding_source)
    && is_dated lot.funding_settlement_date

-- `lot.funding_settlement_date or date.max`
abbrev pub date_key : PurchaseLot → ℕ
date_key lot = elim lot.funding_settlement_date [ none ↦ max_ordinal | some d ↦ d ]

-- The stable `sorted` by `date_key`.
unfoldable pub insert_by_date : PurchaseLot → List PurchaseLot → List PurchaseLot
insert_by_date x [] = x ∷ []
insert_by_date x (y ∷ ys) =
    let rest = insert_by_date x ys in if leb (date_key x) (date_key y) then x ∷ y ∷ ys else y ∷ rest

unfoldable pub sort_by_date : List PurchaseLot → List PurchaseLot
sort_by_date [] = []
sort_by_date (x ∷ xs) = insert_by_date x (sort_by_date xs)

-- The loop over the sorted lots.
unfoldable pub date_loop : ℤ → ℤ → List PurchaseLot → Option ℕ
date_loop requested available [] = none
date_loop requested available (lot ∷ lots) =
    let more = available +ℤ remaining lot in
    let rest = date_loop requested more lots in
    if leb_ℤ requested more then lot.funding_settlement_date else rest

-- `_date_when_quantity_is_safe`
unfoldable pub date_when_quantity_is_safe : List PurchaseLot → ℕ → ℤ → Option ℕ
date_when_quantity_is_safe lots today requested =
    let available = safe_cash_quantity lots today in
    if leb_ℤ requested available
    then some today
    else date_loop requested available (sort_by_date (filter (waits today) lots))

-- `_valid_lot`, of a value that is a `PurchaseLot`
abbrev pub valid_lot : PurchaseLot → Bool
valid_lot lot =
    is_source lot.funding_source
    && positive_finite lot.quantity
    && nonnegative_finite lot.remaining_quantity
    && leb_ℤ (value_of lot.remaining_quantity) (value_of lot.quantity)
    && not (lacks_tzinfo lot.purchase_timestamp.zone)

abbrev pub symbol_errors : Option Text → List Complaint
symbol_errors none = symbol_malformed ∷ []
symbol_errors (some t) = if is_empty (strip t) then symbol_malformed ∷ [] else []

abbrev pub account_errors : Option AccountArgument → List Complaint
account_errors none = account_unknown ∷ []
account_errors (some a) = if names_account a then [] else account_unknown ∷ []

abbrev pub timestamp_errors : Option Datetime → List Complaint
timestamp_errors none = timestamp_naive ∷ []
timestamp_errors (some t) = if lacks_tzinfo t.zone then timestamp_naive ∷ [] else []

abbrev pub lots_errors : Option (List PurchaseLot) → List Complaint
lots_errors none = lots_malformed ∷ []
lots_errors (some lots) = if any (λ lot. not (valid_lot lot)) lots then lot_uncertain ∷ [] else []

-- `_validate_request`
unfoldable pub request_errors : SellRequest → List Complaint
request_errors r =
    symbol_errors r.symbol
    ++ (if positive_finite r.quantity then [] else quantity_malformed ∷ [])
    ++ account_errors r.account_type
    ++ timestamp_errors r.timestamp
    ++ lots_errors r.lots

-- `_reject_malformed`
unfoldable pub reject_malformed :
    Amount → List Complaint → Result DecisionError SellComplianceDecision
reject_malformed quantity complaints =
    let reported = if nonnegative_finite quantity then value_of quantity else pos 0 in
    validate_decision (record {
      approved = false;
      approval_reason = malformed_request;
      requested_quantity = reported;
      safe_sell_quantity = pos 0;
      restricted_quantity = reported;
      next_eligible_sell_date = none;
      warnings = map complaint complaints;
    })

-- `tuple(lot for lot in relevant_position_lots if lot.symbol.strip().upper() == symbol)`
unfoldable pub lots_of : Text → List PurchaseLot → List PurchaseLot
lots_of symbol lots = filter (λ lot. text_eq (normalize lot.symbol) (normalize symbol)) lots

-- The warnings of a rejection for quantity that is not safe yet.
abbrev pub unsafe_warnings : Option ℕ → List Warning
unsafe_warnings none = not_reduced ∷ safe_is_informational ∷ eligibility_undetermined ∷ []
unsafe_warnings (some d) = not_reduced ∷ safe_is_informational ∷ []

-- `account_type is AccountType.MARGIN`
abbrev pub is_margin : Option AccountArgument → Bool
is_margin none = false
is_margin (some (member cash)) = false
is_margin (some (member margin)) = true
is_margin (some (plain t)) = false
