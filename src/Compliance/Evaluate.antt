-- ===== src/Compliance/Evaluate.antt =====
-- `evaluate_sell_compliance` of app/compliance/gfv_validator.py, on arguments that passed the checks
-- and on any arguments.
use webull_aitrader.Shared.{
  ℕ, true, false, Option, none, some, List, [], ◌∷◌, ℤ, pos, ◌-ℤ◌, ltb_ℤ, leb_ℤ, max_ℤ,
  if◌then◌else◌, sum_of, Text, Result, Datetime,
}
use webull_aitrader.Compliance.Lots.{value_of, PurchaseLot}
use webull_aitrader.Compliance.Sell.{
  AccountArgument, SellRequest, Complaint, exceeds_position, margin_approved, approved_safe,
  exceeds_safe, new_request_required, SellComplianceDecision, DecisionError, validate_decision,
  safe_cash_quantity, remaining, date_when_quantity_is_safe, request_errors, reject_malformed,
  lots_of, unsafe_warnings, is_margin,
}

-- What `evaluate_sell_compliance` does with the lots of the symbol.
unfoldable pub decide :
    ℤ → Option AccountArgument → ℕ → List PurchaseLot → Result DecisionError SellComplianceDecision
decide requested account today matching =
    let total = sum_of remaining matching in
    let safe = safe_cash_quantity matching today in
    let next = date_when_quantity_is_safe matching today requested in
    if ltb_ℤ total requested
    then validate_decision (record {
      approved = false;
      approval_reason = exceeds_position;
      requested_quantity = requested;
      safe_sell_quantity = if is_margin account then total else safe;
      restricted_quantity = requested -ℤ (if is_margin account then total else safe);
      next_eligible_sell_date = none;
      warnings = new_request_required ∷ [];
    })
    else (if is_margin account
        then validate_decision (record {
          approved = true;
          approval_reason = margin_approved;
          requested_quantity = requested;
          safe_sell_quantity = total;
          restricted_quantity = pos 0;
          next_eligible_sell_date = none;
          warnings = [];
        })
        else (if leb_ℤ requested safe
            then validate_decision (record {
              approved = true;
              approval_reason = approved_safe;
              requested_quantity = requested;
              safe_sell_quantity = safe;
              restricted_quantity = pos 0;
              next_eligible_sell_date = none;
              warnings = [];
            })
            else validate_decision (record {
              approved = false;
              approval_reason = exceeds_safe;
              requested_quantity = requested;
              safe_sell_quantity = safe;
              restricted_quantity = max_ℤ (pos 0) (requested -ℤ safe);
              next_eligible_sell_date = next;
              warnings = unsafe_warnings next;
            })))

-- The arguments behind `none` have a complaint, so the empty values are never used.
abbrev pub text_or_empty : Option Text → Text
text_or_empty none = []
text_or_empty (some t) = t

abbrev pub lots_or_empty : Option (List PurchaseLot) → List PurchaseLot
lots_or_empty none = []
lots_or_empty (some lots) = lots

abbrev pub day_or_zero : Option Datetime → ℕ
day_or_zero none = 0
day_or_zero (some t) = t.day

abbrev pub decide_unless :
    List Complaint → SellRequest → Result DecisionError SellComplianceDecision
decide_unless [] r =
    decide (value_of r.quantity) r.account_type (day_or_zero r.timestamp)
      (lots_of (text_or_empty r.symbol) (lots_or_empty r.lots))
decide_unless (e ∷ es) r = reject_malformed r.quantity (e ∷ es)

unfoldable pub evaluate_sell_compliance : SellRequest → Result DecisionError SellComplianceDecision
evaluate_sell_compliance r = decide_unless (request_errors r) r
