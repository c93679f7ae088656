-- ===== src/OrderCompliance/Prices.antt =====
-- app/order_compliance/price_rules.py: the prices of a proposal against the tick size. The texts of
-- failures are constructors. `to_integral_value` acts on counts of the unit, of which `scale` are 1.
use webull_aitrader.Shared.{
  ◌+◌, ◌-◌, ◌*◌, ◌/◌, ◌%◌, ◌==◌, Bool, true, false, not, ◌&&◌, ◌||◌, Option, none, some, List, [],
  ◌∷◌, ◌++◌, is_some, ℤ, pos, negsuc, ◌+ℤ◌, ltb_ℤ, pos_part, neg_part, Arithmetic, if◌then◌else◌,
}
use webull_aitrader.Orders.Model.{OrderType, market, limit, stop, stop_limit}
use webull_aitrader.OrderCompliance.{ProposedOrder}

pub data PriceName : Type 0 where
  limit_name stop_name : PriceName

pub data PriceFailure : Type 0 where
  market_with_prices bad_tick_size limit_not_allowed stop_not_allowed : PriceFailure
  price_missing price_not_positive price_off_tick : PriceName → PriceFailure

pub record PriceValidation : Type 0 where
  pub failures : List PriceFailure
  pub normalized_limit_price : Option ℤ
  pub normalized_stop_price : Option ℤ
  pub lower_valid_tick : Option ℤ
  pub upper_valid_tick : Option ℤ

-- `_valid_decimal`
abbrev pub valid_decimal : Option ℤ → Bool
valid_decimal none = false
valid_decimal (some v) = ltb_ℤ (pos 0) v

abbrev pub only_failures : List PriceFailure → PriceValidation
only_failures failures = record {
  failures = failures;
  normalized_limit_price = none;
  normalized_stop_price = none;
  lower_valid_tick = none;
  upper_valid_tick = none;
}

abbrev pub add_failure : PriceValidation → PriceFailure → PriceValidation
add_failure v failure = record v { failures = v.failures ++ failure ∷ [] }

abbrev pub normalized : PriceName → ℤ → PriceValidation → PriceValidation
normalized limit_name price v = record v { normalized_limit_price = some price }
normalized stop_name price v = record v { normalized_stop_price = some price }

-- The prices that the type of the order requires.
abbrev pub required_prices : ProposedOrder → OrderType → List (PriceName × Option ℤ)
required_prices order market = []
required_prices order limit = (limit_name, order.limit_price) ∷ []
required_prices order stop = (stop_name, order.stop_price) ∷ []
required_prices order stop_limit =
    (limit_name, order.limit_price) ∷ (stop_name, order.stop_price) ∷ []

-- The failures of prices that it does not allow.
abbrev pub extra_prices : ProposedOrder → OrderType → List PriceFailure
extra_prices order market = []
extra_prices order limit = if is_some order.stop_price then stop_not_allowed ∷ [] else []
extra_prices order stop = if is_some order.limit_price then limit_not_allowed ∷ [] else []
extra_prices order stop_limit = []

abbrev pub is_market : OrderType → Bool
is_market market = true
is_market limit = false
is_market stop = false
is_market stop_limit = false

abbrev pub price_or_zero : Option ℤ → ℤ
price_or_zero none = pos 0
price_or_zero (some v) = v

module _ (decimal : Arithmetic) where
  -- `quotient == quotient.to_integral_value()`
  abbrev pub is_whole : ℤ → Bool
  is_whole v = pos_part v % decimal.scale == 0 && neg_part v % decimal.scale == 0

  -- `quotient.to_integral_value(rounding=ROUND_FLOOR)`
  abbrev pub floor_whole : ℤ → ℤ
  floor_whole (pos n) = pos (n / decimal.scale * decimal.scale)
  floor_whole (negsuc n) = negsuc ((n / decimal.scale + 1) * decimal.scale - 1)

  -- The ticks around a price, of the first price that is off.
  unfoldable pub around : ℤ → ℤ → PriceValidation → PriceValidation
  around quotient tick v = if is_some v.lower_valid_tick then v else record v {
    lower_valid_tick = some (decimal.times (floor_whole quotient) tick);
    upper_valid_tick = some (decimal.times (floor_whole quotient) tick +ℤ tick);
  }

  unfoldable pub check_price : ℤ → PriceName → ℤ → PriceValidation → PriceValidation
  check_price tick name price v =
      if not (ltb_ℤ (pos 0) price)
      then add_failure v (price_not_positive name)
      else if not (is_whole (decimal.divide price tick))
      then around (decimal.divide price tick) tick (add_failure v (price_off_tick name))
      else normalized name price v

  -- The loop over the required prices.
  unfoldable pub check_prices : ℤ → List (PriceName × Option ℤ) → PriceValidation → PriceValidation
  check_prices tick [] v = v
  check_prices tick ((name, none) ∷ rest) v =
      check_prices tick rest (add_failure v (price_missing name))
  check_prices tick ((name, some price) ∷ rest) v =
      check_prices tick rest (check_price tick name price v)

  unfoldable pub limited_prices : ProposedOrder → Option ℤ → PriceValidation
  limited_prices order tick_size =
      if not (valid_decimal tick_size)
      then only_failures (bad_tick_size ∷ [])
      else check_prices (price_or_zero tick_size) (required_prices order order.order_type)
          (only_failures (extra_prices order order.order_type))

  -- `validate_prices`
  unfoldable pub validate_prices : ProposedOrder → Option ℤ → PriceValidation
  validate_prices order tick_size =
      if is_market order.order_type
      then only_failures (
          if is_some order.limit_price || is_some order.stop_price
          then market_with_prices ∷ []
          else [])
      else limited_prices order tick_size
