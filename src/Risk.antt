-- ===== src/Risk.antt =====
-- app/risk/models.py and policies.py: what the risk committee reads and decides, and the checks of
-- the constructors. Fractions, prices and amounts are counts of the unit of `Arithmetic`. The
-- messages, reasons and metadata, which are display texts, and the serialisation are left out.
pub mod Committee
pub mod Checks
pub mod Constructed
pub mod Bounds
pub mod Decides
use webull_aitrader.Shared.{
  ℕ, ◌+◌, ◌/◌, Bool, true, false, not, ◌||◌, ◌&&◌, List, [], ◌∷◌, ℤ, pos, ltb_ℤ, leb_ℤ, eqb_ℤ, Text,
  strip, upper, text_eq, is_empty, Result, ok, err, ◌>>=◌, ◌>>◌, raise_if, Datetime, fixed, ltb,
  lacks_offset, Arithmetic,
}

pub data CommitteeAction : Type 0 where
  bullish bearish neutral : CommitteeAction

pub data RiskDecisionAction : Type 0 where
  approve modify reject : RiskDecisionAction

pub data RiskReasonCode : Type 0 where
  approved neutral_committee zero_requested_notional insufficient_buying_power : RiskReasonCode
  symbol_exposure_limit gross_exposure_limit daily_loss_limit drawdown_limit : RiskReasonCode
  open_position_limit open_order_limit requested_risk_limit : RiskReasonCode
  committee_confidence_too_low committee_consensus_too_low multiple_limits : RiskReasonCode

pub data RiskError : Type 0 where
  symbol_empty symbol_not_upper naive_timestamp equity_not_positive negative_amount : RiskError
  symbol_over_gross not_a_fraction symbols_differ opinion_in_future state_in_future : RiskError
  neutral_with_exposure out_of_bounds no_checks reject_with_exposure version_empty : RiskError
  -- Python's IndexError
  index_error : RiskError

-- The fields of `CommitteeOpinion` that the committee reads.
pub record CommitteeOpinion : Type 0 where
  pub symbol : Text
  pub timestamp : Datetime
  pub action : CommitteeAction
  pub confidence : ℤ
  pub consensus : ℤ

pub record RiskState : Type 0 where
  pub symbol : Text
  pub timestamp : Datetime
  pub account_equity : ℤ
  pub available_buying_power : ℤ
  pub current_symbol_exposure : ℤ
  pub total_gross_exposure : ℤ
  pub daily_realized_pnl : ℤ
  pub daily_unrealized_pnl : ℤ
  pub current_drawdown_fraction : ℤ
  pub open_positions : ℕ
  pub open_orders : ℕ

-- The limits of `RiskPolicy` that the committee reads.
pub record RiskPolicy : Type 0 where
  pub version : Text
  pub maximum_symbol_exposure_fraction : ℤ
  pub maximum_gross_exposure_fraction : ℤ
  pub maximum_daily_loss_fraction : ℤ
  pub maximum_drawdown_fraction : ℤ
  pub maximum_requested_risk_fraction : ℤ
  pub minimum_committee_confidence : ℤ
  pub minimum_committee_consensus : ℤ
  pub maximum_open_positions : ℕ
  pub maximum_open_orders : ℕ
  pub allow_modification : Bool

pub record RiskEvaluationRequest : Type 0 where
  pub committee_opinion : CommitteeOpinion
  pub risk_state : RiskState
  pub requested_notional : ℤ
  pub requested_risk_fraction : ℤ
  pub timestamp : Datetime

-- What a check shows of the value that it looked at, and of its limit.
pub data Shown : Type 0 where
  amount : ℤ → Shown
  count : ℕ → Shown
  action_value : CommitteeAction → Shown
  -- the text "directional"
  directional : Shown

pub record RiskLimitCheck : Type 0 where
  pub code : RiskReasonCode
  pub passed : Bool
  pub observed : Shown
  pub limit : Shown
  pub blocking : Bool

pub record RiskDecision : Type 0 where
  pub symbol : Text
  pub timestamp : Datetime
  pub action : RiskDecisionAction
  pub approved_notional : ℤ
  pub approved_risk_fraction : ℤ
  pub committee_action : CommitteeAction
  pub committee_confidence : ℤ
  pub committee_consensus : ℤ
  pub primary_reason : RiskReasonCode
  pub checks : List RiskLimitCheck
  pub policy_version : Text

abbrev pub is_neutral : CommitteeAction → Bool
is_neutral neutral = true
is_neutral bullish = false
is_neutral bearish = false

abbrev pub is_reject : RiskDecisionAction → Bool
is_reject reject = true
is_reject approve = false
is_reject modify = false

abbrev pub has_none {ℓ} : {A : Type ℓ} → List A → Bool
has_none [] = true
has_none (x ∷ xs) = false

-- `_symbol`
unfoldable pub required_symbol : Text → Result RiskError Text
required_symbol value = do
  raise_if (is_empty (strip value)) symbol_empty
  raise_if (not (text_eq (strip value) (upper (strip value)))) symbol_not_upper
  ok (strip value)

-- `value.astimezone(timezone.utc)`; the day of instant 0 is day 1.
unfoldable pub to_utc : Datetime → Datetime
to_utc value = record value { day = value.instant / 86400000000 + 1; zone = fixed }

-- `_timestamp`
unfoldable pub required_timestamp : Datetime → Result RiskError Datetime
required_timestamp value = do raise_if (lacks_offset value.zone) naive_timestamp; ok (to_utc value)

module _ (decimal : Arithmetic) where
  -- `not Decimal(0) <= value <= Decimal(1)`
  abbrev pub outside_unit : ℤ → Bool
  outside_unit value = not (leb_ℤ (pos 0) value && leb_ℤ value (pos decimal.scale))

  -- `RiskState.__post_init__`
  unfoldable pub validate_state : RiskState → Result RiskError RiskState
  validate_state s = do
    symbol ← required_symbol s.symbol
    timestamp ← required_timestamp s.timestamp
    raise_if (leb_ℤ s.account_equity (pos 0)) equity_not_positive
    raise_if (ltb_ℤ s.available_buying_power (pos 0)) negative_amount
    raise_if (ltb_ℤ s.current_symbol_exposure (pos 0)) negative_amount
    raise_if (ltb_ℤ s.total_gross_exposure (pos 0)) negative_amount
    raise_if (ltb_ℤ s.total_gross_exposure s.current_symbol_exposure) symbol_over_gross
    raise_if (outside_unit s.current_drawdown_fraction) not_a_fraction
    ok (record s { symbol = symbol; timestamp = timestamp })

  -- `RiskPolicy.__post_init__`
  unfoldable pub validate_policy : RiskPolicy → Result RiskError RiskPolicy
  validate_policy p = do
    raise_if (is_empty (strip p.version)) version_empty
    raise_if (outside_unit p.maximum_symbol_exposure_fraction) not_a_fraction
    raise_if (outside_unit p.maximum_gross_exposure_fraction) not_a_fraction
    raise_if (outside_unit p.maximum_daily_loss_fraction) not_a_fraction
    raise_if (outside_unit p.maximum_drawdown_fraction) not_a_fraction
    raise_if (outside_unit p.maximum_requested_risk_fraction) not_a_fraction
    raise_if (outside_unit p.minimum_committee_confidence) not_a_fraction
    raise_if (outside_unit p.minimum_committee_consensus) not_a_fraction
    ok (record p { version = strip p.version })

  -- `RiskEvaluationRequest.__post_init__`
  unfoldable pub validate_risk_request :
      RiskEvaluationRequest → Result RiskError RiskEvaluationRequest
  validate_risk_request q = do
    raise_if (not (text_eq q.committee_opinion.symbol q.risk_state.symbol)) symbols_differ
    timestamp ← required_timestamp q.timestamp
    raise_if (ltb timestamp.instant q.committee_opinion.timestamp.instant) opinion_in_future
    raise_if (ltb timestamp.instant q.risk_state.timestamp.instant) state_in_future
    raise_if (ltb_ℤ q.requested_notional (pos 0)) negative_amount
    raise_if (outside_unit q.requested_risk_fraction) not_a_fraction
    raise_if
        (is_neutral q.committee_opinion.action
          && (not (eqb_ℤ q.requested_notional (pos 0))
              || not (eqb_ℤ q.requested_risk_fraction (pos 0))))
        neutral_with_exposure
    ok (record q { timestamp = timestamp })

  -- `RiskDecision.__post_init__`
  unfoldable pub validate_risk_decision : RiskDecision → Result RiskError RiskDecision
  validate_risk_decision d = do
    symbol ← required_symbol d.symbol
    timestamp ← required_timestamp d.timestamp
    raise_if (ltb_ℤ d.approved_notional (pos 0) || outside_unit d.approved_risk_fraction)
        out_of_bounds
    raise_if (outside_unit d.committee_confidence) out_of_bounds
    raise_if (outside_unit d.committee_consensus) out_of_bounds
    raise_if (has_none d.checks) no_checks
    raise_if
        (is_reject d.action
          && (not (eqb_ℤ d.approved_notional (pos 0))
              || not (eqb_ℤ d.approved_risk_fraction (pos 0))))
        reject_with_exposure
    raise_if (is_empty (strip d.policy_version)) version_empty
    ok (record d {
      symbol = symbol;
      timestamp = timestamp;
      policy_version = strip d.policy_version;
    })
