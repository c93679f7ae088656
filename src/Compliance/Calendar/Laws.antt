-- ===== src/Compliance/Calendar/Laws.antt =====
-- What the settlement calendar of app/compliance/settlement_calendar.py computes.
use webull_aitrader.Shared.{
  ◌≡◌, refl, ℕ, zero, suc, ◌+◌, ◌-◌, ◌≤◌, ◌<◌, Bool, true, false, List, pos, ok, is_ok,
  if◌then◌else◌, Bool-cases, inl, inr, arith, sym, ◌∙◌,
}
use webull_aitrader.Compliance.Calendar.{
  max_ordinal, is_market_business_day, advance, add_market_business_days, settlement_date,
}

-- How many business days the n days after a date hold.
unfoldable pub business_days : List ℕ → ℕ → ℕ → ℕ
business_days holidays d zero = 0
business_days holidays d (suc n) =
    (if is_market_business_day holidays (d + 1) then 1 else 0) + business_days holidays (d + 1) n

-- The date that lies `n` days on, where `n` is the first number of days that hold `days` business
-- days.
pub record IsFirst (holidays : List ℕ) (start days d : ℕ) : Type 0 where
  pub gap : ℕ
  pub at_gap : d ≡ start + gap
  pub enough : business_days holidays start gap ≡ days
  pub first : (m : ℕ) → m < gap → business_days holidays start m < days

business_days-suc :
    (holidays : List ℕ) (d n : ℕ) {b : Bool}
    → is_market_business_day holidays (d + 1) ≡ b
    → business_days holidays d (suc n) ≡ (if b then 1 else 0) + business_days holidays (d + 1) n
unfolding business_days
business_days-suc holidays d n h = rw h

step_first :
    (holidays : List ℕ) (d r r' g : ℕ) {b : Bool}
    → is_market_business_day holidays (d + 1) ≡ b
    → suc r ≡ (if b then 1 else 0) + r'
    → ((m : ℕ) → m < g → business_days holidays (d + 1) m < r')
    → (m : ℕ) → m < suc g
    → business_days holidays d m < suc r
unfolding business_days
step_first holidays d r r' g hb hr f zero lt = omega arith
step_first holidays d r r' g hb hr f (suc m) lt =
    let below = f m (omega arith) in ground (arith, hb, hr)

step-IsFirst :
    (holidays : List ℕ) (d r r' : ℕ) {e : ℕ} {b : Bool}
    → is_market_business_day holidays (d + 1) ≡ b
    → suc r ≡ (if b then 1 else 0) + r'
    → IsFirst holidays (d + 1) r' e
    → IsFirst holidays d (suc r) e
step-IsFirst holidays d r r' hb hr rest = record {
  gap = suc (rest.gap);
  at_gap = rest.at_gap ∙ omega arith;
  enough = business_days-suc holidays d rest.gap hb ∙ rw rest.enough (sym hr);
  first = step_first holidays d r r' rest.gap hb hr rest.first;
}

advance_step :
    (holidays : List ℕ) (room d r : ℕ) {b : Bool}
    → is_market_business_day holidays (d + 1) ≡ b
    → advance holidays (suc room) d (suc r)
      ≡ (if b then advance holidays room (d + 1) r else advance holidays room (d + 1) (suc r))
unfolding advance
advance_step holidays room d r {b = true} h = ground (arith, h)
advance_step holidays room d r {b = false} h = ground (arith, h)

advance-IsFirst :
    (holidays : List ℕ) (room d r : ℕ) {e : ℕ}
    → advance holidays room d r ≡ ok e
    → IsFirst holidays d r e
unfolding advance business_days
advance-IsFirst holidays room d zero h = record {
  gap = 0;
  at_gap = ground arith;
  enough = refl;
  first = λ m lt. omega arith;
}
advance-IsFirst holidays zero d (suc r) h = cc
advance-IsFirst holidays (suc room) d (suc r) h =
    elim (Bool-cases (is_market_business_day holidays (d + 1))) [
      | inl t ↦
          step-IsFirst holidays d r r t (omega arith)
            (advance-IsFirst holidays room (d + 1) r (sym (advance_step holidays room d r t) ∙ h))
      | inr f ↦ step-IsFirst holidays d r (suc r) f (omega arith) (
          advance-IsFirst holidays room (d + 1) (suc r)
            (sym (advance_step holidays room d r f) ∙ h))
    ]

-- When the calendar returns a date for T+n, this date lies a number of days after the trade date,
-- these days hold exactly n market business days, and no smaller number of days holds n of them.
pub settlement_date-IsFirst :
    (holidays : List ℕ) (trade_date days : ℕ) {e : ℕ}
    → settlement_date holidays trade_date (pos days) ≡ ok e
    → IsFirst holidays trade_date days e
unfolding settlement_date add_market_business_days
settlement_date-IsFirst holidays trade_date days h =
    advance-IsFirst holidays (max_ordinal - trade_date) trade_date days h

advance-is_ok :
    (holidays : List ℕ) (room d r : ℕ)
    → r ≤ business_days holidays d room
    → is_ok (advance holidays room d r) ≡ true
unfolding advance business_days
advance-is_ok holidays room d zero h = refl
advance-is_ok holidays zero d (suc r) h = ground arith
advance-is_ok holidays (suc room) d (suc r) h =
    elim (Bool-cases (is_market_business_day holidays (d + 1))) [
      | inl t ↦
          rw (advance_step holidays room d r t)
            (advance-is_ok holidays room (d + 1) r (ground (arith, h, t)))
      | inr f ↦
          rw (advance_step holidays room d r f)
            (advance-is_ok holidays room (d + 1) (suc r) (ground (arith, h, f)))
    ]

-- The calendar returns a date for T+n as soon as n market business days are left before the last
-- date that Python's `date` has.
pub settlement_date-is_ok :
    (holidays : List ℕ) (trade_date days : ℕ)
    → days ≤ business_days holidays trade_date (max_ordinal - trade_date)
    → is_ok (settlement_date holidays trade_date (pos days)) ≡ true
unfolding settlement_date add_market_business_days
settlement_date-is_ok holidays trade_date days h =
    advance-is_ok holidays (max_ordinal - trade_date) trade_date days h
