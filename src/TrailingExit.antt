-- ===== src/TrailingExit.antt =====
-- app/trade_management/trailing_exit.py: the trailing stop of a long position. Decimal products,
-- quotients and `quantize(Decimal("0.01"))` round, so they come in as `Arithmetic`.
pub mod Protection
pub mod Simulation
pub mod Paths
use webull_aitrader.Shared.{
  Arithmetic, ℕ, ◌*◌, Bool, true, false, not, ◌||◌, ◌&&◌, Option, none, some, Text, ℤ, pos, ◌-ℤ◌,
  ltb_ℤ, leb_ℤ, max_ℤ, is_empty, normalize, Result, ok, err, ◌>>=◌, ◌>>◌, raise_if, if◌then◌else◌,
}

pub data ExitAction : Type 0 where
  hold raise_stop exit : ExitAction

pub data ExitError : Type 0 where
  symbol_required not_positive negative distance_too_large highest_below_entry : ExitError

pub record TrailingExitConfig : Type 0 where
  pub activation_gain_percent : ℤ
  pub trailing_distance_percent : ℤ
  pub break_even_trigger_percent : ℤ
  pub minimum_stop_raise_percent : ℤ

pub record ManagedLongPosition : Type 0 where
  pub symbol : Text
  pub entry_price : ℤ
  pub quantity : ℤ
  pub highest_price : ℤ
  pub protective_stop : Option ℤ
  pub trailing_activated : Bool

pub record ExitDecision : Type 0 where
  pub action : ExitAction
  pub current_price : ℤ
  pub gain_percent : ℤ
  pub previous_stop : Option ℤ
  pub recommended_stop : Option ℤ
  pub position : ManagedLongPosition

-- `_require_positive`
abbrev pub require_positive : ℤ → Result ExitError (Unit {0})
require_positive v = raise_if (leb_ℤ v (pos 0)) not_positive

-- `_require_nonnegative`
abbrev pub require_nonnegative : ℤ → Result ExitError (Unit {0})
require_nonnegative v = raise_if (ltb_ℤ v (pos 0)) negative

abbrev pub require_stop : Option ℤ → Result ExitError (Unit {0})
require_stop none = ok tt
require_stop (some s) = require_positive s

-- `ManagedLongPosition.__post_init__`
unfoldable pub validate_position : ManagedLongPosition → Result ExitError ManagedLongPosition
validate_position p = do
  raise_if (is_empty (normalize p.symbol)) symbol_required
  require_positive p.entry_price
  require_positive p.quantity
  require_positive p.highest_price
  raise_if (ltb_ℤ p.highest_price p.entry_price) highest_below_entry
  require_stop p.protective_stop
  ok (record p { symbol = normalize p.symbol })

-- `_higher_stop`
abbrev pub higher_stop : Option ℤ → Option ℤ → Option ℤ
higher_stop none candidate = candidate
higher_stop (some e) none = some e
higher_stop (some e) (some c) = some (max_ℤ e c)

-- `stop is not None and price <= stop`
abbrev pub at_stop : Option ℤ → ℤ → Bool
at_stop none price = false
at_stop (some s) price = leb_ℤ price s

-- `stop is None or stop < price`
abbrev pub is_below : Option ℤ → ℤ → Bool
is_below none price = true
is_below (some s) price = ltb_ℤ s price

module _ (decimal : Arithmetic) where
  abbrev pub hundred : ℤ
  hundred = pos (100 * decimal.scale)

  -- `TrailingExitConfig.__post_init__`
  unfoldable pub validate_config : TrailingExitConfig → Result ExitError TrailingExitConfig
  validate_config c = do
    require_nonnegative c.activation_gain_percent
    require_positive c.trailing_distance_percent
    require_nonnegative c.break_even_trigger_percent
    require_nonnegative c.minimum_stop_raise_percent
    raise_if (leb_ℤ hundred c.trailing_distance_percent) distance_too_large
    ok c

  -- `_percent_change`
  unfoldable pub percent_change : ℤ → ℤ → ℤ
  percent_change starting_price current_price =
      decimal.quantize
        (decimal.times (decimal.divide (current_price -ℤ starting_price) starting_price) hundred)

  -- `_rounded_price`
  abbrev pub rounded_price : Option ℤ → Option ℤ
  rounded_price none = none
  rounded_price (some v) = some (decimal.quantize v)

  -- `_stop_was_meaningfully_raised`
  abbrev pub stop_was_meaningfully_raised : Option ℤ → Option ℤ → ℤ → Bool
  stop_was_meaningfully_raised previous none minimum = false
  stop_was_meaningfully_raised none (some n) minimum = true
  stop_was_meaningfully_raised (some p) (some n) minimum =
      if leb_ℤ n p then false else leb_ℤ (decimal.times p (decimal.divide minimum hundred)) (n -ℤ p)

  -- The candidate stop of `evaluate_long_position`: at break-even, then behind the highest price.
  unfoldable pub break_even_stop : ManagedLongPosition → TrailingExitConfig → ℤ → Option ℤ
  break_even_stop p c gain_percent =
      if leb_ℤ c.break_even_trigger_percent gain_percent && is_below p.protective_stop p.entry_price
      then some p.entry_price
      else p.protective_stop

  unfoldable pub candidate_stop : ManagedLongPosition → TrailingExitConfig → ℤ → ℤ → Bool → Option ℤ
  candidate_stop p c gain_percent highest_price trailing_activated =
      let candidate = break_even_stop p c gain_percent in
      let trailing_stop =
        decimal.times highest_price
          (pos decimal.scale -ℤ decimal.divide c.trailing_distance_percent hundred) in
      rounded_price (
        if trailing_activated && is_below candidate trailing_stop
        then some trailing_stop
        else candidate)

  -- The branch of an exit.
  unfoldable pub exit_decision : ManagedLongPosition → ℤ → ℤ → ℤ → Result ExitError ExitDecision
  exit_decision p current_price gain_percent highest_price = do
    updated ← validate_position (record p { highest_price = highest_price })
    ok (record {
      action = exit;
      current_price = current_price;
      gain_percent = gain_percent;
      previous_stop = p.protective_stop;
      recommended_stop = p.protective_stop;
      position = updated;
    })

  -- The branch above the stop.
  unfoldable pub hold_decision :
      ManagedLongPosition → TrailingExitConfig → ℤ → ℤ → ℤ → Bool → Result ExitError ExitDecision
  hold_decision p c current_price gain_percent highest_price trailing_activated = do
    updated ← validate_position (record p {
      highest_price = highest_price;
      protective_stop =
          higher_stop p.protective_stop
            (candidate_stop p c gain_percent highest_price trailing_activated);
      trailing_activated = trailing_activated;
    })
    ok (record {
      action =
          if stop_was_meaningfully_raised p.protective_stop updated.protective_stop
            c.minimum_stop_raise_percent
          then raise_stop
          else hold;
      current_price = current_price;
      gain_percent = gain_percent;
      previous_stop = p.protective_stop;
      recommended_stop = updated.protective_stop;
      position = updated;
    })

  unfoldable pub evaluate_long_position :
      ManagedLongPosition → ℤ → TrailingExitConfig → Result ExitError ExitDecision
  evaluate_long_position p current_price c =
      let highest_price = max_ℤ p.highest_price current_price in
      let gain_percent = percent_change p.entry_price current_price in
      require_positive current_price
      >> (if at_stop p.protective_stop current_price
          then exit_decision p current_price gain_percent highest_price
          else hold_decision p c current_price gain_percent highest_price (
              p.trailing_activated
              || leb_ℤ c.activation_gain_percent (percent_change p.entry_price highest_price)))
