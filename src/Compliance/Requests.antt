-- ===== src/Compliance/Requests.antt =====
-- `evaluate_sell_compliance` of app/compliance/gfv_validator.py on any arguments: which of them it
-- checks as sound, and what it answers on the others.
use webull_aitrader.Shared.{
  Bool, ◌||◌, codes, text_eq, text_eq_iff, ◌≡◌, ◌⊎◌, refl, ◌↔◌, true, false, not, Option, none,
  some, List, [], ◌∷◌, ◌++◌, ℤ, pos, ◌<ℤ◌, leb_ℤ, if◌then◌else◌, Bool-cases, inl, inr, any, All,
  All-weaken, All-filter, Text, strip, is_empty, Datetime, lacks_tzinfo, ok, arith,
}
use webull_aitrader.Compliance.Lots.{
  Amount, not_decimal, not_finite, finite, positive_finite, PurchaseLot,
}
use webull_aitrader.Compliance.Sell.{
  AccountArgument, member, plain, names_account, account_unknown, SellRequest, Complaint,
  SellComplianceDecision, validate_decision, valid_lot, request_errors, symbol_errors,
  account_errors, timestamp_errors, lots_errors, quantity_malformed, reject_malformed, lots_of,
}
use webull_aitrader.Compliance.Evaluate.{evaluate_sell_compliance}
use webull_aitrader.Compliance.Approval.{IsNonneg, GoodDecision, decide-GoodDecision}

-- A member of `AccountType`, or the text of one.
abbrev pub NamesAccount : AccountArgument → Type 0
NamesAccount (member a) = Unit {0}
NamesAccount (plain t) = (t ≡ codes "CASH") ⊎ (t ≡ codes "MARGIN")

-- Arguments that each have the type and the value that the evaluation asks for.
pub record IsSound (r : SellRequest) : Type 0 where
  pub symbol : Text
  pub symbol_given : r.symbol ≡ some symbol
  pub symbol_present : is_empty (strip symbol) ≡ false
  pub quantity : ℤ
  pub quantity_given : r.quantity ≡ finite quantity
  pub quantity_positive : pos 0 <ℤ quantity
  pub account : AccountArgument
  pub account_given : r.account_type ≡ some account
  pub account_named : NamesAccount account
  pub now : Datetime
  pub now_given : r.timestamp ≡ some now
  pub now_aware : lacks_tzinfo now.zone ≡ false
  pub lots : List PurchaseLot
  pub lots_given : r.lots ≡ some lots
  pub lots_valid : All (λ lot. valid_lot lot ≡ true) lots

no_invalid :
    (lots : List PurchaseLot)
    → any (λ lot. not (valid_lot lot)) lots ≡ false
    → All (λ lot. valid_lot lot ≡ true) lots
no_invalid [] h = tt
no_invalid (x ∷ xs) h = elim (Bool-cases (valid_lot x)) [
  | inl v ↦ (v, no_invalid xs (ground (arith, h, v)))
  | inr n ↦ ground (arith, h, n)
]

invalid_none :
    (lots : List PurchaseLot)
    → All (λ lot. valid_lot lot ≡ true) lots
    → any (λ lot. not (valid_lot lot)) lots ≡ false
invalid_none [] h = refl
invalid_none (x ∷ xs) h = rw (h.0) (invalid_none xs h.1)

append_nil : {A : Type 0} (xs ys : List A) → (xs ++ ys ≡ []) → (xs ≡ []) × (ys ≡ [])
append_nil [] ys h = (refl, h)
append_nil (x ∷ xs) ys h = cc

parts_nil :
    {A : Type 0} (a b c d e : List A)
    → a ++ b ++ c ++ d ++ e ≡ []
    → (a ≡ []) × (b ≡ []) × (c ≡ []) × (d ≡ []) × (e ≡ [])
parts_nil a b c d e h =
    let last = append_nil (a ++ b ++ c ++ d) e h in
    let fourth = append_nil (a ++ b ++ c) d last.0 in
    let third = append_nil (a ++ b) c fourth.0 in
    let second = append_nil a b third.0 in (second.0, second.1, third.1, fourth.1, last.1)

symbol_errors_nil :
    (s : Option Text)
    → symbol_errors s ≡ []
    → (t : Text) × (s ≡ some t) × (is_empty (strip t) ≡ false)
symbol_errors_nil none h = cc
symbol_errors_nil (some t) h = (t, refl, ground (arith, h))

quantity_errors_nil :
    (q : Amount)
    → (if positive_finite q then [] else quantity_malformed ∷ []) ≡ []
    → (v : ℤ) × (q ≡ finite v) × (pos 0 <ℤ v)
quantity_errors_nil not_decimal h = cc
quantity_errors_nil not_finite h = cc
quantity_errors_nil (finite v) h = (v, refl, ground (arith, h))

either : (a b : Bool) → ((a || b) ≡ true) ↔ ((a ≡ true) ⊎ (b ≡ true))
either a b = ground arith

names_account_iff : (a : AccountArgument) → (names_account a ≡ true) ↔ NamesAccount a
names_account_iff (member a) = (λ h. tt, λ h. refl)
names_account_iff (plain t) =
    let as_cash = text_eq_iff t (codes "CASH") in
    let as_margin = text_eq_iff t (codes "MARGIN") in
    let both = either (text_eq t (codes "CASH")) (text_eq t (codes "MARGIN")) in
    (
      λ h. elim (both.0 h) [ inl e ↦ inl (as_cash.0 e) | inr e ↦ inr (as_margin.0 e) ],
      λ h. both.1 (elim h [ inl e ↦ inl (as_cash.1 e) | inr e ↦ inr (as_margin.1 e) ]),
    )

nothing_left : {A : Type 0} (b : Bool) (e : A) → (if b then [] else e ∷ []) ≡ [] → b ≡ true
nothing_left true e h = refl
nothing_left false e h = cc

account_errors_nil :
    (a : Option AccountArgument)
    → account_errors a ≡ []
    → (b : AccountArgument) × (a ≡ some b) × NamesAccount b
account_errors_nil none h = cc
account_errors_nil (some b) h =
    (b, refl, (names_account_iff b).0 (nothing_left (names_account b) account_unknown h))

timestamp_errors_nil :
    (t : Option Datetime)
    → timestamp_errors t ≡ []
    → (n : Datetime) × (t ≡ some n) × (lacks_tzinfo n.zone ≡ false)
timestamp_errors_nil none h = cc
timestamp_errors_nil (some t) h = (t, refl, ground (arith, h))

lots_errors_nil :
    (ls : Option (List PurchaseLot))
    → lots_errors ls ≡ []
    → (lots : List PurchaseLot) × (ls ≡ some lots) × All (λ lot. valid_lot lot ≡ true) lots
lots_errors_nil none h = cc
lots_errors_nil (some lots) h = (lots, refl, no_invalid lots (ground (arith, h)))

pub request_errors_iff : (r : SellRequest) → (request_errors r ≡ []) ↔ IsSound r
unfolding request_errors
request_errors_iff r = (
  λ h.
      let ns =
        parts_nil (symbol_errors r.symbol)
          (if positive_finite r.quantity then [] else quantity_malformed ∷ [])
          (account_errors r.account_type) (timestamp_errors r.timestamp) (lots_errors r.lots) h in
      let s = symbol_errors_nil r.symbol ns.0 in
      let q = quantity_errors_nil r.quantity ns.1 in
      let a = account_errors_nil r.account_type ns.2 in
      let t = timestamp_errors_nil r.timestamp ns.3 in
      let l = lots_errors_nil r.lots ns.4 in
      record {
        symbol = s.0;
        symbol_given = s.1;
        symbol_present = s.2;
        quantity = q.0;
        quantity_given = q.1;
        quantity_positive = q.2;
        account = a.0;
        account_given = a.1;
        account_named = a.2;
        now = t.0;
        now_given = t.1;
        now_aware = t.2;
        lots = l.0;
        lots_given = l.1;
        lots_valid = l.2;
      },
  λ g.
      let clean = invalid_none g.lots g.lots_valid in
      let named = (names_account_iff g.account).1 g.account_named in
      ground (
        arith, g.symbol_given, g.symbol_present, g.quantity_given, g.quantity_positive,
        g.account_given, g.now_given, g.now_aware, g.lots_given,
      ),
)

valid→nonneg : (lot : PurchaseLot) → valid_lot lot ≡ true → IsNonneg lot
valid→nonneg lot h = ground (arith, h)

-- A request whose arguments are all sound gets a decision on the lots of its symbol: the sale is
-- approved exactly when the requested quantity is at most the quantity that is safe to sell, which
-- is the whole position on margin and the lots safe on the day of the request otherwise, and the
-- rest of the request is reported as restricted. The next eligible date is given for a cash request
-- within the position but beyond the safe part, as `_date_when_quantity_is_safe` finds it.
pub evaluate-GoodDecision :
    (r : SellRequest) (s : IsSound r)
    → (d : SellComplianceDecision) × (evaluate_sell_compliance r ≡ ok d)
      × GoodDecision s.quantity (some s.account) s.now.day (lots_of s.symbol s.lots) d
unfolding evaluate_sell_compliance lots_of
evaluate-GoodDecision r s =
    rw
      (
        (request_errors_iff r).1 s,
        s.quantity_given,
        s.account_given,
        s.now_given,
        s.symbol_given,
        s.lots_given,
      )
      (decide-GoodDecision s.quantity (some s.account) s.now.day (lots_of s.symbol s.lots)
        (omega (arith, s.quantity_positive))
        (All-filter IsNonneg _ s.lots (All-weaken _ IsNonneg s.lots valid→nonneg s.lots_valid)))

-- What a call returns, and that it approves nothing but a sound request.
abbrev pub Decides : SellRequest → Type 0
Decides r =
    (d : SellComplianceDecision) × (evaluate_sell_compliance r ≡ ok d)
    × ((d.approved ≡ false) ⊎ IsSound r)

reject_malformed_lem :
    (q : Amount) (es : List Complaint)
    → (d : SellComplianceDecision) × (reject_malformed q es ≡ ok d) × (d.approved ≡ false)
unfolding reject_malformed validate_decision
reject_malformed_lem not_decimal es = (_, refl, refl)
reject_malformed_lem not_finite es = (_, refl, refl)
reject_malformed_lem (finite v) es = elim (Bool-cases (leb_ℤ (pos 0) v)) [
  | inl t ↦ rw (t, t) (_, refl, refl)
  | inr f ↦ rw f (_, refl, refl)
]

Decides-on : (r : SellRequest) (es : List Complaint) → request_errors r ≡ es → Decides r
unfolding evaluate_sell_compliance
Decides-on r [] h =
    let sound = (request_errors_iff r).0 h in
    let good = evaluate-GoodDecision r sound in (good.0, good.1, inr sound)
Decides-on r (e ∷ es) h =
    let bad = reject_malformed_lem r.quantity (e ∷ es) in (bad.0, rw h bad.1, inl bad.2)

-- Every call returns a decision, on arguments of any value or type except that each lot has a symbol
-- that is a text, a timestamp and a settlement date that is a date or None; a call that approves the
-- sale had only sound arguments.
pub evaluate_total : (r : SellRequest) → Decides r
evaluate_total r = Decides-on r (request_errors r) refl
