-- ===== src/OrderCompliance.antt =====
-- app/order_compliance/models.py: what the compliance checks of a proposal read and decide. Its
-- `OrderSide` and `OrderType` have the members of those of app/paper_trading/order_models.py.
-- Decimal fields hold finite values.
pub mod Prices
pub mod Market
pub mod Validator
pub mod Clocks
pub mod Rules
pub mod Conforming
pub mod Approved
pub mod Permitted
use webull_aitrader.Shared.{ℕ, Bool, Option, List, ℤ, Text, Datetime}
use webull_aitrader.Orders.Model.{OrderSide, OrderType}
use webull_aitrader.Compliance.Lots.{AccountType}

pub data TradingSession : Type 0 where
  regular extended_hours : TradingSession

pub data MarketStatus : Type 0 where
  open_market closed halted_market circuit_breaker unknown_market : MarketStatus

pub data SymbolStatus : Type 0 where
  tradable not_tradable halted_symbol unknown_symbol : SymbolStatus

pub record ProposedOrder : Type 0 where
  pub request_id : Text
  pub symbol : Text
  pub side : OrderSide
  pub order_type : OrderType
  pub quantity : ℤ
  pub limit_price : Option ℤ
  pub stop_price : Option ℤ
  pub requested_session : TradingSession
  pub created_timestamp : Datetime

pub record AccountComplianceState : Type 0 where
  pub account_type : AccountType
  pub account_equity : ℤ
  pub current_daily_realized_pnl : ℤ
  pub current_daily_unrealized_pnl : ℤ
  pub trades_executed_today : ℕ
  pub open_order_request_ids : List Text
  pub open_order_fingerprints : List Text
  pub current_symbol_position_quantity : ℤ
  pub current_symbol_market_value : ℤ
  pub current_total_gross_exposure : ℤ
  pub current_timestamp : Datetime

pub record MarketComplianceState : Type 0 where
  pub symbol : Text
  pub market_status : MarketStatus
  pub symbol_status : SymbolStatus
  pub regular_session_open : Datetime
  pub regular_session_close : Datetime
  pub extended_session_open : Datetime
  pub extended_session_close : Datetime
  pub price_tick_size : Option ℤ
  pub status_as_of : Datetime
  pub verified_reference_price : Option ℤ

pub record ComplianceLimits : Type 0 where
  pub maximum_daily_loss_amount : ℤ
  pub maximum_daily_loss_percent : ℤ
  pub maximum_trades_per_day : ℕ
  pub maximum_position_percent : ℤ
  pub maximum_gross_exposure_percent : ℤ
  pub maximum_market_status_age_seconds : ℤ
  pub allow_extended_hours : Bool
  pub allow_market_orders_in_extended_hours : Bool

-- The names of the checks.
pub data CheckName : Type 0 where
  input_types core_fields kill_switch risk_approval gfv_approval upstream_quantity : CheckName
  account_freshness market_freshness symbol_match symbol_tradable market_status : CheckName
  market_session price_rules duplicate_request_id duplicate_fingerprint : CheckName
  long_position trade_count daily_loss position_concentration gross_exposure : CheckName

-- The reason and the warnings, which are display texts, are left out.
pub record OrderComplianceDecision : Type 0 where
  pub approved : Bool
  pub request_id : Text
  pub checks_passed : List CheckName
  pub checks_failed : List CheckName
  pub maximum_compliant_quantity : Option ℤ
  pub normalized_limit_price : Option ℤ
  pub normalized_stop_price : Option ℤ
  pub lower_valid_tick : Option ℤ
  pub upper_valid_tick : Option ℤ
