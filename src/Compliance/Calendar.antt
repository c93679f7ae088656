-- ===== src/Compliance/Calendar.antt =====
-- app/compliance/settlement_calendar.py. A date is its proleptic ordinal, as `date.toordinal` counts
-- it; `date.max` has the ordinal 3652059, past which `+ timedelta(days=1)` raises.
pub mod Laws
use webull_aitrader.Shared.{
  ℕ, zero, suc, ◌+◌, ◌-◌, ◌%◌, Bool, true, false, not, ◌&&◌, List, [], ◌∷◌, ℤ, pos, negsuc, ltb,
  ◌==◌, any, Result, ok, err,
}

pub data CalendarError : Type 0 where
  negative_days date_overflow : CalendarError

abbrev pub max_ordinal : ℕ
max_ordinal = 3652059

-- `date.weekday()`: Monday is 0, and the ordinal 1 is a Monday.
abbrev pub weekday : ℕ → ℕ
weekday d = (d + 6) % 7

-- `is_market_business_day`
unfoldable pub is_market_business_day : List ℕ → ℕ → Bool
is_market_business_day holidays d = ltb (weekday d) 5 && not (any (λ h. h == d) holidays)

-- The loop of `add_market_business_days`. `room` is how many days there are up to `date.max`.
unfoldable pub advance : List ℕ → ℕ → ℕ → ℕ → Result CalendarError ℕ
advance holidays room current zero = ok current
advance holidays zero current (suc remaining) = err date_overflow
advance holidays (suc room) current (suc remaining) =
    elim (is_market_business_day holidays (current + 1)) [
      | true ↦ advance holidays room (current + 1) remaining
      | false ↦ advance holidays room (current + 1) (suc remaining)
    ]

unfoldable pub add_market_business_days : List ℕ → ℕ → ℤ → Result CalendarError ℕ
unfolding advance
add_market_business_days holidays start (pos days) =
    advance holidays (max_ordinal - start) start days
add_market_business_days holidays start (negsuc n) = err negative_days

unfoldable pub settlement_date : List ℕ → ℕ → ℤ → Result CalendarError ℕ
unfolding add_market_business_days
settlement_date holidays trade_date settlement_days =
    add_market_business_days holidays trade_date settlement_days
