-- ===== src/Authorization.antt =====
-- app/authorization/models.py, validation.py and app/broker_protocol/validation.py: the intent, the
-- approval evidence and the authorization of a live order, and their checks. `BrokerSide`,
-- `BrokerOrderType` and `TimeInForce` have the members of the enums of the paper orders. The digests
-- are SHA-256 of a canonical JSON text, code of the standard library, and come in as functions.
pub mod Registry
pub mod Issuer
pub mod Consumption
pub mod Histories
pub mod OneUse
pub mod Barred
pub mod Issued
use webull_aitrader.Shared.{
  ℕ, Bool, true, false, not, ◌||◌, ◌&&◌, Option, none, some, Text, strip, upper, text_eq, is_empty,
  ℤ, pos, leb_ℤ, eqb_ℤ, ltb, leb, is_some, Result, ok, err, ◌>>=◌, ◌>>◌, raise_if, Datetime,
  lacks_tzinfo,
}
use webull_aitrader.Orders.Model.{
  OrderSide, buy, sell, OrderType, market, limit, stop, stop_limit, TimeInForce, day, gtc, ioc,
}

pub record ExecutionIntent : Type 0 where
  pub intent_id : Text
  pub account_id : Text
  pub symbol : Text
  pub side : OrderSide
  pub order_type : OrderType
  pub quantity : ℤ
  pub limit_price : Option ℤ
  pub stop_price : Option ℤ
  pub time_in_force : TimeInForce
  pub created_at : Datetime

-- `RiskApprovalEvidence` and `ComplianceApprovalEvidence`, which have the same fields.
pub record ApprovalEvidence : Type 0 where
  pub approval_id : Text
  pub intent_id : Text
  pub intent_digest : Text
  pub approved : Bool
  pub account_id : Text
  pub symbol : Text
  pub side : OrderSide
  pub order_type : OrderType
  pub quantity : ℤ
  pub limit_price : Option ℤ
  pub stop_price : Option ℤ
  pub time_in_force : TimeInForce
  pub issued_at : Datetime
  pub expires_at : Datetime
  pub revoked : Bool
  pub superseded : Bool

pub record LiveExecutionAuthorization : Type 0 where
  pub authorization_id : Text
  pub intent_id : Text
  pub intent_digest : Text
  pub risk_approval_id : Text
  pub risk_approval_digest : Text
  pub compliance_approval_id : Text
  pub compliance_approval_digest : Text
  pub account_id : Text
  pub symbol : Text
  pub side : OrderSide
  pub order_type : OrderType
  pub quantity : ℤ
  pub limit_price : Option ℤ
  pub stop_price : Option ℤ
  pub time_in_force : TimeInForce
  pub issued_at : Datetime
  pub expires_at : Datetime
  pub single_use : Bool

pub data AuthError : Type 0 where
  identity_required naive_timestamp not_positive wrong_prices symbol_not_normalized : AuthError
  not_approved evidence_withdrawn evidence_not_valid identity_mismatch field_mismatch : AuthError
  expired_or_inactive id_required bad_times outlives_evidence id_exists id_unknown : AuthError
  substitution revoked_evidence superseded_evidence is_revoked is_consumed : AuthError
  raced approval_required payload_malformed : AuthError

-- What `canonical_digest` and the ISO form of a timestamp compute.
pub record Digests : Type 0 where
  -- `canonical_digest` of an intent, and of an approval
  pub of_intent : ExecutionIntent → Text
  pub of_evidence : ApprovalEvidence → Text
  -- `datetime.fromisoformat(value.isoformat())`, without a value where it has no zone
  pub reread_time : Datetime → Option Datetime
  -- `==` of two timestamps
  pub same_time : Datetime → Datetime → Bool

-- The eight fields that an intent shares with evidence and authorizations.
pub record Terms : Type 0 where
  pub account_id : Text
  pub symbol : Text
  pub side : OrderSide
  pub order_type : OrderType
  pub quantity : ℤ
  pub limit_price : Option ℤ
  pub stop_price : Option ℤ
  pub time_in_force : TimeInForce

abbrev pub intent_terms : ExecutionIntent → Terms
intent_terms i = record {
  account_id = i.account_id;
  symbol = i.symbol;
  side = i.side;
  order_type = i.order_type;
  quantity = i.quantity;
  limit_price = i.limit_price;
  stop_price = i.stop_price;
  time_in_force = i.time_in_force;
}

abbrev pub evidence_terms : ApprovalEvidence → Terms
evidence_terms e = record {
  account_id = e.account_id;
  symbol = e.symbol;
  side = e.side;
  order_type = e.order_type;
  quantity = e.quantity;
  limit_price = e.limit_price;
  stop_price = e.stop_price;
  time_in_force = e.time_in_force;
}

abbrev pub authorization_terms : LiveExecutionAuthorization → Terms
authorization_terms a = record {
  account_id = a.account_id;
  symbol = a.symbol;
  side = a.side;
  order_type = a.order_type;
  quantity = a.quantity;
  limit_price = a.limit_price;
  stop_price = a.stop_price;
  time_in_force = a.time_in_force;
}

abbrev pub side_eq : OrderSide → OrderSide → Bool
side_eq buy buy = true
side_eq buy sell = false
side_eq sell buy = false
side_eq sell sell = true

abbrev pub type_rank : OrderType → ℤ
type_rank market = pos 0
type_rank limit = pos 1
type_rank stop = pos 2
type_rank stop_limit = pos 3

abbrev pub force_rank : TimeInForce → ℤ
force_rank day = pos 0
force_rank gtc = pos 1
force_rank ioc = pos 2

abbrev pub price_eq : Option ℤ → Option ℤ → Bool
price_eq none none = true
price_eq none (some b) = false
price_eq (some a) none = false
price_eq (some a) (some b) = eqb_ℤ a b

-- `_match`
unfoldable pub terms_eq : Terms → Terms → Bool
terms_eq s t =
    text_eq s.account_id t.account_id
    && text_eq s.symbol t.symbol
    && side_eq s.side t.side
    && eqb_ℤ (type_rank s.order_type) (type_rank t.order_type)
    && eqb_ℤ s.quantity t.quantity
    && price_eq s.limit_price t.limit_price
    && price_eq s.stop_price t.stop_price
    && eqb_ℤ (force_rank s.time_in_force) (force_rank t.time_in_force)

-- `_positive` of a price that may be absent
abbrev pub bad_price : Option ℤ → Bool
bad_price none = false
bad_price (some v) = leb_ℤ v (pos 0)

-- The prices that a type of order does not allow, or lacks.
abbrev pub wrong_for : OrderType → Option ℤ → Option ℤ → Bool
wrong_for market limit_price stop_price = is_some limit_price || is_some stop_price
wrong_for limit limit_price stop_price = not (is_some limit_price) || is_some stop_price
wrong_for stop limit_price stop_price = not (is_some stop_price) || is_some limit_price
wrong_for stop_limit limit_price stop_price = not (is_some stop_price) || not (is_some limit_price)

-- `validate_order_request`, of the request that `validate_intent` makes
unfoldable pub validate_order_request : ExecutionIntent → Result AuthError (Unit {0})
validate_order_request i = do
  raise_if (is_empty (strip i.intent_id) || is_empty (strip (upper i.symbol))) identity_required
  raise_if (leb_ℤ i.quantity (pos 0)) not_positive
  raise_if (bad_price i.limit_price) not_positive
  raise_if (bad_price i.stop_price) not_positive
  raise_if (wrong_for i.order_type i.limit_price i.stop_price) wrong_prices

-- `validate_intent`
unfoldable pub validate_intent : ExecutionIntent → Result AuthError (Unit {0})
validate_intent i = do
  raise_if (is_empty (strip i.intent_id) || is_empty (strip i.account_id)) identity_required
  raise_if (lacks_tzinfo i.created_at.zone) naive_timestamp
  validate_order_request i
  raise_if (not (text_eq i.symbol (upper i.symbol))) symbol_not_normalized

module _ (digests : Digests) where
  -- `validate_evidence`
  unfoldable pub validate_evidence :
      ExecutionIntent → ApprovalEvidence → Datetime → Result AuthError (Unit {0})
  validate_evidence i e now = do
    validate_intent i
    raise_if (lacks_tzinfo now.zone) naive_timestamp
    raise_if (not e.approved) not_approved
    raise_if (e.revoked || e.superseded) evidence_withdrawn
    raise_if (lacks_tzinfo e.issued_at.zone) naive_timestamp
    raise_if (lacks_tzinfo e.expires_at.zone) naive_timestamp
    raise_if (ltb now.instant e.issued_at.instant || leb e.expires_at.instant now.instant)
        evidence_not_valid
    raise_if
        (not (text_eq e.intent_id i.intent_id)
          || not (text_eq e.intent_digest (digests.of_intent i)))
        identity_mismatch
    raise_if (not (terms_eq (evidence_terms e) (intent_terms i))) field_mismatch

  -- `validate_authorization_binding`
  unfoldable pub validate_authorization_binding :
      ExecutionIntent → LiveExecutionAuthorization → Result AuthError (Unit {0})
  validate_authorization_binding i a = do
    validate_intent i
    raise_if
        (not (text_eq a.intent_id i.intent_id)
          || not (text_eq a.intent_digest (digests.of_intent i)))
        identity_mismatch
    raise_if (not (terms_eq (authorization_terms a) (intent_terms i))) field_mismatch
    raise_if (lacks_tzinfo a.issued_at.zone) naive_timestamp
    raise_if (lacks_tzinfo a.expires_at.zone) naive_timestamp

  -- `validate_for_consumption`
  unfoldable pub validate_for_consumption :
      ExecutionIntent → LiveExecutionAuthorization → Datetime → Result AuthError (Unit {0})
  validate_for_consumption i a now = do
    validate_authorization_binding i a
    raise_if (lacks_tzinfo now.zone) naive_timestamp
    raise_if (ltb now.instant a.issued_at.instant || leb a.expires_at.instant now.instant)
        expired_or_inactive
