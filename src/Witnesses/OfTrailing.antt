-- ===== src/Witnesses/OfTrailing.antt =====
-- The theorems on the trailing exit, at a sample position and price path, in cents.
use webull_aitrader.Shared.{
  Arithmetic, ◌≡◌, refl, List, [], ◌∷◌, ◌*◌, ◌/◌, ℤ, pos, pos_part, some, true, false, ok, codes,
  ◌-ℤ◌, ◌+ℤ◌, strip, lstrip, rstrip, upper, normalize,
}
use webull_aitrader.TrailingExit.{
  ExitDecision, raise_stop, TrailingExitConfig, ManagedLongPosition, evaluate_long_position,
  validate_position, hold_decision, exit_decision, candidate_stop, break_even_stop, percent_change,
}
use webull_aitrader.TrailingExit.Protection.{GoodExit, evaluate_long_position-GoodExit}
use webull_aitrader.TrailingExit.Simulation.{
  compare_exit_methods, fixed_target, trailing_stop, simulate_fixed_profit_target,
  simulate_trailing_stop, validated_prices, fixed_loop, trailing_loop, target_price,
  TradeSimulationResult,
}
use webull_aitrader.TrailingExit.Paths.{GoodComparison, compare_exit_methods-GoodComparison}

abbrev cents : Arithmetic
cents = record {
  scale = 100;
  times = λ a b. pos (pos_part a * pos_part b / 100);
  divide = λ a b. pos (pos_part a * 100 / pos_part b);
  quantize = λ a. a;
}

abbrev config : TrailingExitConfig
config = record {
  activation_gain_percent = pos 300;
  trailing_distance_percent = pos 200;
  break_even_trigger_percent = pos 150;
  minimum_stop_raise_percent = pos 10;
}

abbrev position : ManagedLongPosition
position = record {
  symbol = codes "AAPL";
  entry_price = pos 10000;
  quantity = pos 100;
  highest_price = pos 10100;
  protective_stop = some (pos 9800);
  trailing_activated = false;
}

abbrev raised : ExitDecision
raised = record {
  action = raise_stop;
  current_price = pos 11000;
  gain_percent = pos 1000;
  previous_stop = some (pos 9800);
  recommended_stop = some (pos 10780);
  position = record position {
    highest_price = pos 11000;
    protective_stop = some (pos 10780);
    trailing_activated = true;
  };
}

raising : evaluate_long_position cents position (pos 11000) config ≡ ok raised
unfolding evaluate_long_position validate_position hold_decision candidate_stop break_even_stop
    percent_change ◌-ℤ◌ ◌+ℤ◌ normalize upper strip lstrip rstrip
raising = refl

evaluate_long_position-GoodExit_example : GoodExit cents position (pos 11000) raised
evaluate_long_position-GoodExit_example =
    evaluate_long_position-GoodExit cents position (pos 11000) config raising

abbrev path : List ℤ
path = pos 10000 ∷ pos 10600 ∷ pos 10300 ∷ pos 10500 ∷ []

abbrev fixed_run : TradeSimulationResult
fixed_run = record {
  exit_method = fixed_target;
  entry_price = pos 10000;
  exit_price = pos 10600;
  highest_price = pos 10600;
  gain_percent = pos 600;
  observations_processed = 2;
}

abbrev trailing_run : TradeSimulationResult
trailing_run = record {
  exit_method = trailing_stop;
  entry_price = pos 10000;
  exit_price = pos 10300;
  highest_price = pos 10600;
  gain_percent = pos 300;
  observations_processed = 3;
}

compared :
    compare_exit_methods cents path (pos 500) config
    ≡ ok (record { fixed_result = fixed_run; trailing_result = trailing_run })
unfolding compare_exit_methods simulate_fixed_profit_target simulate_trailing_stop validated_prices
    fixed_loop trailing_loop target_price evaluate_long_position validate_position hold_decision
    exit_decision candidate_stop break_even_stop percent_change ◌-ℤ◌ ◌+ℤ◌ normalize upper strip
    lstrip rstrip
compared = refl

compare_exit_methods-GoodComparison_example :
    (x : ℤ) × (xs : List ℤ) × (path ≡ x ∷ xs)
    × GoodComparison cents
        (pos 500)
        config
        x
        xs
        (record { fixed_result = fixed_run; trailing_result = trailing_run })
compare_exit_methods-GoodComparison_example =
    compare_exit_methods-GoodComparison cents path (pos 500) config compared
