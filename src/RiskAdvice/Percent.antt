-- ===== src/RiskAdvice/Percent.antt =====
-- About the ranges of the score and of the percentage in app/risk/sizing.py.
use webull_aitrader.Shared.{
  ◌≡◌, refl, Bool, true, false, inl, inr, Option, ℤ, pos, ◌≤ℤ◌, ◌+ℤ◌, ◌-ℤ◌, min_ℤ, max_ℤ,
  Option-cases, arith, Arithmetic,
}
use mathlib.Core.Path.{subst}
use webull_aitrader.RiskAdvice.{RiskLimits, outside_of, whole_number}
use webull_aitrader.RiskAdvice.Sizing.{
  rounded, hundredths_of, volatility_risk, calculate_risk_score, calculate_max_position_percent,
  usable, confidence_factor, volatility_factor,
}

-- What `Decimal` documents of products and of `quantize`, and limits that are percentages.
pub record Percentages (decimal : Arithmetic) (limits : RiskLimits) : Type 0 where
  pub times_not_negative : (a b : ℤ) → pos 0 ≤ℤ a → pos 0 ≤ℤ b → pos 0 ≤ℤ decimal.times a b
  pub quantize_zero : decimal.quantize (pos 0) ≡ pos 0
  pub quantize_hundred :
      decimal.quantize (whole_number decimal (pos 100)) ≡ whole_number decimal (pos 100)
  pub quantize_monotone : (a b : ℤ) → a ≤ℤ b → decimal.quantize a ≤ℤ decimal.quantize b
  pub maximum_not_negative : pos 0 ≤ℤ limits.maximum_position_percent
  pub maximum_at_most : limits.maximum_position_percent ≤ℤ whole_number decimal (pos 100)
  pub missing_not_negative : pos 0 ≤ℤ limits.missing_atr_position_percent
  pub missing_at_most : limits.missing_atr_position_percent ≤ℤ whole_number decimal (pos 100)

clamped : (v : ℤ) → outside_of (pos 0) (pos 100) (max_ℤ (pos 0) (min_ℤ (pos 100) v)) ≡ false
clamped v = ground arith

pub score_inside :
    (decimal : Arithmetic) (c p : ℤ) (atr : Option ℤ)
    → outside_of (pos 0) (pos 100) (calculate_risk_score decimal c p atr) ≡ false
unfolding calculate_risk_score
score_inside decimal c p atr = clamped (
    rounded decimal (
      decimal.times (whole_number decimal (pos 100 -ℤ c)) (hundredths_of decimal 60)
      +ℤ volatility_risk decimal p (usable atr)))

pub unapproved_empty :
    (decimal : Arithmetic) {approved : Bool} (c p : ℤ) (atr : Option ℤ) (limits : RiskLimits)
    → approved ≡ false
    → calculate_max_position_percent decimal approved c p atr limits ≡ pos 0
unfolding calculate_max_position_percent
unapproved_empty decimal c p atr limits h = rw h refl

pub inside : (w v : ℤ) → pos 0 ≤ℤ v → v ≤ℤ w → outside_of (pos 0) w v ≡ false
inside w v low high = ground arith

module _ {decimal : Arithmetic} {limits : RiskLimits} (laws : Percentages decimal limits) where
  quantized_inside :
      (a b : ℤ)
      → pos 0 ≤ℤ a
      → a ≤ℤ whole_number decimal (pos 100)
      → pos 0 ≤ℤ b
      → outside_of (pos 0) (whole_number decimal (pos 100)) (decimal.quantize (min_ℤ a b)) ≡ false
  quantized_inside a b low high other =
      let least : pos 0 ≤ℤ min_ℤ a b = ground arith in
      let most : min_ℤ a b ≤ℤ whole_number decimal (pos 100) = ground arith in
      inside (whole_number decimal (pos 100)) (decimal.quantize (min_ℤ a b))
        (subst (λ z. z ≤ℤ decimal.quantize (min_ℤ a b)) laws.quantize_zero
          (laws.quantize_monotone (pos 0) (min_ℤ a b) least))
        (subst (λ z. decimal.quantize (min_ℤ a b) ≤ℤ z) laws.quantize_hundred
          (laws.quantize_monotone (min_ℤ a b) (whole_number decimal (pos 100)) most))

  factor_not_negative : (c : ℤ) → pos 0 ≤ℤ confidence_factor decimal c
  factor_not_negative c = ground arith

  pub percent_inside :
      (approved : Bool) (c p : ℤ) (atr : Option ℤ)
      → outside_of
          (pos 0)
          (whole_number decimal (pos 100))
          (calculate_max_position_percent decimal approved c p atr limits)
        ≡ false
  unfolding calculate_max_position_percent
  percent_inside false c p atr =
      inside (whole_number decimal (pos 100)) (pos 0) (omega arith)
        (omega (arith, laws.maximum_not_negative, laws.maximum_at_most))
  percent_inside true c p atr = elim (Option-cases (usable atr)) [
    | inl absent ↦ rw absent (
        quantized_inside limits.missing_atr_position_percent
          (decimal.times limits.maximum_position_percent (confidence_factor decimal c))
          laws.missing_not_negative laws.missing_at_most
          (laws.times_not_negative limits.maximum_position_percent (confidence_factor decimal c)
            laws.maximum_not_negative (factor_not_negative c)))
    | inr (v, given) ↦
        let first = decimal.times limits.maximum_position_percent (confidence_factor decimal c) in
        rw given (
          quantized_inside limits.maximum_position_percent
            (decimal.times first (volatility_factor decimal v p)) laws.maximum_not_negative
            laws.maximum_at_most
            (laws.times_not_negative first (volatility_factor decimal v p)
              (laws.times_not_negative limits.maximum_position_percent (confidence_factor decimal c)
                laws.maximum_not_negative (factor_not_negative c))
              (ground arith)))
  ]
