-- ===== src/Orders/Model.antt =====
-- The data of app/paper_trading/order_models.py and fill_models.py. A record holds the field values
-- of a dataclass; its `__post_init__` is a function in Validate. A `Decimal` is an integer count of
-- a fixed unit: prices, quantities and, in the product of those units, notionals.
use webull_aitrader.Shared.{Bool, true, false, Option, List, Text, Datetime, ℤ, ◌-ℤ◌, ◌*ℤ◌, sum_of}

pub data OrderSide : Type 0 where
  buy sell : OrderSide

pub data OrderType : Type 0 where
  market limit stop stop_limit : OrderType

pub data TimeInForce : Type 0 where
  day gtc ioc : TimeInForce

pub data OrderStatus : Type 0 where
  new accepted partially_filled filled cancelled rejected expired : OrderStatus

-- `TERMINAL_ORDER_STATUSES`
abbrev pub is_terminal_status : OrderStatus → Bool
is_terminal_status OrderStatus.new = false
is_terminal_status OrderStatus.accepted = false
is_terminal_status OrderStatus.partially_filled = false
is_terminal_status OrderStatus.filled = true
is_terminal_status OrderStatus.cancelled = true
is_terminal_status OrderStatus.rejected = true
is_terminal_status OrderStatus.expired = true

-- `asset_class` is left out: no code of these modules reads it.
pub record OrderRequest : Type 0 where
  pub symbol : Text
  pub side : OrderSide
  pub order_type : OrderType
  pub quantity : ℤ
  pub time_in_force : TimeInForce
  pub limit_price : Option ℤ
  pub stop_price : Option ℤ
  pub client_order_id : Option Text

pub record Fill : Type 0 where
  pub fill_id : Text
  pub order_id : Text
  pub quantity : ℤ
  pub price : ℤ
  pub timestamp : Datetime
  pub commission : ℤ
  pub slippage : ℤ
  pub venue : Option Text
  pub liquidity_flag : Option Text

-- `Fill.notional`
abbrev pub notional : Fill → ℤ
notional f = f.quantity *ℤ f.price

abbrev pub fill_quantity : Fill → ℤ
fill_quantity f = f.quantity

pub record PaperOrder : Type 0 where
  pub order_id : Text
  pub request : OrderRequest
  pub status : OrderStatus
  pub created_at : Datetime
  pub updated_at : Datetime
  pub filled_quantity : ℤ
  pub average_fill_price : Option ℤ
  pub rejection_reason : Option Text
  pub fills : List Fill

abbrev pub remaining_quantity : PaperOrder → ℤ
remaining_quantity o = o.request.quantity -ℤ o.filled_quantity

abbrev pub is_terminal : PaperOrder → Bool
is_terminal o = is_terminal_status o.status

unfoldable pub total_commission : PaperOrder → ℤ
total_commission o = sum_of (λ f. f.commission) o.fills

unfoldable pub total_slippage : PaperOrder → ℤ
total_slippage o = sum_of (λ f. f.slippage) o.fills

-- What the modules raise: one constructor for each `raise` of the source.
pub data OrderError : Type 0 where
  -- OrderRequest and `_validate_order_prices`
  symbol_required quantity_not_positive limit_not_positive stop_not_positive : OrderError
  market_with_price limit_missing limit_with_stop stop_missing stop_with_limit : OrderError
  stop_limit_incomplete : OrderError
  -- Fill
  fill_id_required order_id_required price_not_positive commission_negative : OrderError
  timestamp_naive : OrderError
  -- PaperOrder
  updated_before_created filled_negative filled_exceeds_quantity average_not_positive : OrderError
  average_missing average_without_fill foreign_fill fills_quantity_mismatch : OrderError
  fills_average_mismatch filled_incomplete partial_out_of_range reason_missing : OrderError
  rejected_with_fills reason_not_rejected : OrderError
  -- orders.py: InvalidOrderTransitionError, then OrderValidationError
  invalid_transition empty_order_id blank_reason fill_quantity_not_positive : OrderError
  fill_price_not_positive fill_exceeds_remaining fill_commission_negative : OrderError
  time_before_updated empty_fill_id : OrderError
