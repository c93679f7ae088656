-- ===== src/TrailingExit/Simulation.antt =====
-- app/trade_management/simulation.py: a price path under a fixed target and under the trailing stop.
-- A path is its first price and the others.
use webull_aitrader.Shared.{
  Arithmetic, ℕ, suc, Bool, true, false, List, [], ◌∷◌, none, ℤ, pos, ◌+ℤ◌, ◌-ℤ◌, leb_ℤ, max_ℤ, any,
  codes, Result, ok, err, ◌>>=◌, ◌>>◌, raise_if, if◌then◌else◌,
}
use webull_aitrader.TrailingExit.{
  ExitAction, hold, raise_stop, exit, ExitError, TrailingExitConfig, ManagedLongPosition,
  validate_position, percent_change, hundred, evaluate_long_position,
}

pub data ExitMethod : Type 0 where
  fixed_target trailing_stop end_of_data : ExitMethod

pub record TradeSimulationResult : Type 0 where
  pub exit_method : ExitMethod
  pub entry_price : ℤ
  pub exit_price : ℤ
  pub highest_price : ℤ
  pub gain_percent : ℤ
  pub observations_processed : ℕ

pub record ExitComparison : Type 0 where
  pub fixed_result : TradeSimulationResult
  pub trailing_result : TradeSimulationResult

pub data SimulationError : Type 0 where
  too_few_prices price_not_positive : SimulationError
  exit_failed : ExitError → SimulationError

-- `_validated_prices`: the first price and the rest.
unfoldable pub validated_prices : List ℤ → Result SimulationError (ℤ × List ℤ)
validated_prices [] = err too_few_prices
validated_prices (x ∷ []) = err too_few_prices
validated_prices (x ∷ y ∷ ys) = do
  raise_if (any (λ v. leb_ℤ v (pos 0)) (x ∷ y ∷ ys)) price_not_positive
  ok (x, y ∷ ys)

abbrev pub from_exit : {A : Type 0} → Result ExitError A → Result SimulationError A
from_exit (ok a) = ok a
from_exit (err e) = err (exit_failed e)

abbrev pub is_exit : ExitAction → Bool
is_exit exit = true
is_exit hold = false
is_exit raise_stop = false

module _ (decimal : Arithmetic) where
  -- The result at a price, after so many observations.
  abbrev pub result_of : ExitMethod → ℤ → ℤ → ℤ → ℕ → TradeSimulationResult
  result_of method entry_price exit_price highest_price n = record {
    exit_method = method;
    entry_price = entry_price;
    exit_price = exit_price;
    highest_price = highest_price;
    gain_percent = percent_change decimal entry_price exit_price;
    observations_processed = n;
  }

  -- The loop of `simulate_fixed_profit_target`, after `n` observations of which `last` is the latest.
  unfoldable pub fixed_loop : ℤ → ℤ → ℤ → ℤ → ℕ → List ℤ → TradeSimulationResult
  fixed_loop target entry_price last highest_price n [] =
      result_of end_of_data entry_price last highest_price n
  fixed_loop target entry_price last highest_price n (x ∷ xs) =
      let rest = fixed_loop target entry_price x (max_ℤ highest_price x) (suc n) xs in
      if leb_ℤ target x
      then result_of fixed_target entry_price x (max_ℤ highest_price x) (suc n)
      else rest

  unfoldable pub target_price : ℤ → ℤ → ℤ
  target_price entry_price target_gain_percent =
      decimal.times entry_price
        (pos decimal.scale +ℤ decimal.divide target_gain_percent (hundred decimal))

  unfoldable pub simulate_fixed_profit_target :
      List ℤ → ℤ → Result SimulationError TradeSimulationResult
  simulate_fixed_profit_target prices target_gain_percent = do
    path ← validated_prices prices
    ok (fixed_loop (target_price path.0 target_gain_percent) path.0 path.0 path.0 1 path.1)

  -- The loop of `simulate_trailing_stop`.
  unfoldable pub trailing_loop :
      TrailingExitConfig
      → ℤ
      → ManagedLongPosition
      → ℤ
      → ℕ
      → List ℤ
      → Result ExitError TradeSimulationResult
  trailing_loop c entry_price p last n [] =
      ok (result_of end_of_data entry_price last p.highest_price n)
  trailing_loop c entry_price p last n (x ∷ xs) = elim (evaluate_long_position decimal p x c) [
    | err e ↦ err e
    | ok d ↦ elim (is_exit d.action) [
      | true ↦ ok (result_of trailing_stop entry_price x d.position.highest_price (suc n))
      | false ↦ trailing_loop c entry_price d.position x (suc n) xs
    ]
  ]

  abbrev pub simulated_position : ℤ → ManagedLongPosition
  simulated_position entry_price = record {
    symbol = codes "SIM";
    entry_price = entry_price;
    quantity = pos decimal.scale;
    highest_price = entry_price;
    protective_stop = none;
    trailing_activated = false;
  }

  unfoldable pub simulate_trailing_stop :
      List ℤ → TrailingExitConfig → Result SimulationError TradeSimulationResult
  simulate_trailing_stop prices c = do
    path ← validated_prices prices
    position ← from_exit (validate_position (simulated_position path.0))
    from_exit (trailing_loop c path.0 position path.0 1 path.1)

  unfoldable pub compare_exit_methods :
      List ℤ → ℤ → TrailingExitConfig → Result SimulationError ExitComparison
  compare_exit_methods prices fixed_target_percent c = do
    fixed_result ← simulate_fixed_profit_target prices fixed_target_percent
    trailing_result ← simulate_trailing_stop prices c
    ok (record { fixed_result = fixed_result; trailing_result = trailing_result })

  -- `ExitComparison.trailing_improvement_percent`
  unfoldable pub trailing_improvement_percent : ExitComparison → ℤ
  trailing_improvement_percent e =
      decimal.quantize (e.trailing_result.gain_percent -ℤ e.fixed_result.gain_percent)
