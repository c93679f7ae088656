-- ===== src/RiskAdvice.antt =====
-- app/risk/validator.py, sizing.py and limits.py, and `LegacyRiskDecision` of app/risk/models.py: the
-- validator of an advisory response. Prices are finite Decimals, the texts of the warnings are
-- constructors, and the branches for values of a wrong type are left out.
pub mod Sizing
pub mod Validator
pub mod Percent
pub mod Levels
pub mod Sound
use webull_aitrader.Shared.{
  Bool, true, ◌||◌, Option, List, ℤ, pos, ltb_ℤ, Arithmetic, Result, raise_if, ok, ◌>>◌, ◌*ℤ◌,
}

pub data ResponseAction : Type 0 where
  buy_action sell_action hold_action : ResponseAction

-- The fields of `AIResponse` and of `MarketSnapshot` that are read.
pub record AiResponse : Type 0 where
  pub action : ResponseAction
  pub confidence : ℤ
  pub stop_loss : Option ℤ
  pub take_profit : Option ℤ

pub record MarketSnapshot : Type 0 where
  pub close : ℤ
  pub atr_14 : Option ℤ

pub record RiskLimits : Type 0 where
  pub minimum_confidence : ℤ
  pub minimum_reward_risk_ratio : ℤ
  pub maximum_position_percent : ℤ
  pub missing_atr_position_percent : ℤ

pub data RiskWarning : Type 0 where
  malformed_price malformed_confidence invalid_price : RiskWarning
  confidence_low stop_required stop_not_positive target_required target_not_positive : RiskWarning
  stop_wrong_side target_wrong_side ratio_low atr_unavailable : RiskWarning

-- Without `approval_reason`, which is never empty.
pub record LegacyRiskDecision : Type 0 where
  pub approved : Bool
  pub risk_score : ℤ
  pub max_position_percent : ℤ
  pub stop_loss_valid : Bool
  pub take_profit_valid : Bool
  pub warnings : List RiskWarning

-- What `LegacyRiskDecision.__post_init__` raises.
pub data RiskModelError : Type 0 where
  score_out_of_range percent_out_of_range : RiskModelError

-- `Decimal(n)`
abbrev pub whole_number : Arithmetic → ℤ → ℤ
whole_number decimal n = n *ℤ pos decimal.scale

abbrev pub outside_of : ℤ → ℤ → ℤ → Bool
outside_of low high v = ltb_ℤ v low || ltb_ℤ high v

-- `LegacyRiskDecision(...)`
unfoldable pub legacy_risk_decision :
    Arithmetic → LegacyRiskDecision → Result RiskModelError LegacyRiskDecision
legacy_risk_decision decimal d =
    raise_if (outside_of (pos 0) (pos 100) d.risk_score) score_out_of_range
    >> raise_if (outside_of (pos 0) (whole_number decimal (pos 100)) d.max_position_percent)
        percent_out_of_range
    >> ok d
