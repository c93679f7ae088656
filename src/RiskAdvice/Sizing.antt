-- ===== src/RiskAdvice/Sizing.antt =====
-- app/risk/sizing.py: the risk score and the percentage of a position.
use webull_aitrader.Shared.{
  ℕ, ◌+◌, ◌*◌, ◌/◌, ◌%◌, ◌==◌, Bool, not, Option, none, some, ℤ, pos, negsuc, ◌+ℤ◌, ◌-ℤ◌, ltb,
  leb_ℤ, min_ℤ, max_ℤ, Arithmetic, if◌then◌else◌,
}
use webull_aitrader.RiskAdvice.{RiskLimits, whole_number}

-- The ATR where it is given and not negative.
abbrev pub usable : Option ℤ → Option ℤ
usable none = none
usable (some v) = if leb_ℤ (pos 0) v then some v else none

module _ (decimal : Arithmetic) where
  abbrev pub hundredths_of : ℕ → ℤ
  hundredths_of n = pos (n * decimal.scale / 100)

  -- Rounding to a whole number, `ROUND_HALF_EVEN`, by the size.
  abbrev pub half_even : ℕ → ℕ
  half_even n =
      let below = n / decimal.scale in
      let rest = n % decimal.scale in
      if ltb (2 * rest) decimal.scale
      then below
      else if ltb decimal.scale (2 * rest)
      then below + 1
      else if below % 2 == 0
      then below
      else below + 1

  -- `int(v.quantize(Decimal(1), rounding=ROUND_HALF_EVEN))`
  abbrev pub rounded : ℤ → ℤ
  rounded (pos n) = pos (half_even n)
  rounded (negsuc n) = pos 0 -ℤ pos (half_even (n + 1))

  -- `atr / current_price * Decimal(100)`
  abbrev pub atr_percent_of : ℤ → ℤ → ℤ
  atr_percent_of atr current_price =
      decimal.times (decimal.divide atr current_price) (whole_number decimal (pos 100))

  abbrev pub volatility_risk : ℤ → Option ℤ → ℤ
  volatility_risk current_price none = whole_number decimal (pos 25)
  volatility_risk current_price (some atr) =
      if leb_ℤ current_price (pos 0)
      then whole_number decimal (pos 25)
      else min_ℤ (whole_number decimal (pos 40))
          (decimal.times (atr_percent_of atr current_price) (whole_number decimal (pos 8)))

  -- `calculate_risk_score`
  unfoldable pub calculate_risk_score : ℤ → ℤ → Option ℤ → ℤ
  calculate_risk_score confidence current_price atr =
      let confidence_risk =
        decimal.times (whole_number decimal (pos 100 -ℤ confidence)) (hundredths_of 60) in
      let total = confidence_risk +ℤ volatility_risk current_price (usable atr) in
      max_ℤ (pos 0) (min_ℤ (pos 100) (rounded total))

  abbrev pub confidence_factor : ℤ → ℤ
  confidence_factor confidence = max_ℤ (pos 0) (
      min_ℤ (whole_number decimal (pos 1))
        (decimal.divide (whole_number decimal confidence) (whole_number decimal (pos 100))))

  abbrev pub volatility_factor : ℤ → ℤ → ℤ
  volatility_factor atr current_price = max_ℤ (hundredths_of 20) (
      min_ℤ (whole_number decimal (pos 1)) (
        decimal.divide (whole_number decimal (pos 3))
          (max_ℤ (atr_percent_of atr current_price) (hundredths_of 1))))

  abbrev pub sized : ℤ → ℤ → RiskLimits → Option ℤ → ℤ
  sized confidence current_price limits none = decimal.quantize (
      min_ℤ limits.missing_atr_position_percent
        (decimal.times limits.maximum_position_percent (confidence_factor confidence)))
  sized confidence current_price limits (some atr) = decimal.quantize (
      min_ℤ limits.maximum_position_percent (
        decimal.times (decimal.times limits.maximum_position_percent (confidence_factor confidence))
          (volatility_factor atr current_price)))

  -- `calculate_max_position_percent`
  unfoldable pub calculate_max_position_percent : Bool → ℤ → ℤ → Option ℤ → RiskLimits → ℤ
  calculate_max_position_percent approved confidence current_price atr limits =
      if not approved then pos 0 else sized confidence current_price limits (usable atr)
