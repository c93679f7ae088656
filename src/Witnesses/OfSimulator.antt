-- ===== src/Witnesses/OfSimulator.antt =====
-- The theorems on the portfolio and the simulation of proposals, at a purchase, in hundredths.
use webull_aitrader.Shared.{
  ◌≡◌, refl, arith, [], ◌∷◌, pos, true, ok, some, none, codes, ◌-ℤ◌, ◌+ℤ◌, strip, lstrip, rstrip,
  upper, normalize, text_eq, Datetime, fixed,
}
use webull_aitrader.Witnesses.Samples.{hundredths}
use webull_aitrader.Orders.Model.{buy, sell, market}
use webull_aitrader.OrderCompliance.{ProposedOrder, OrderComplianceDecision, regular}
use webull_aitrader.Simulator.{
  PaperPosition, PaperPortfolio, create_portfolio, apply_portfolio_fill, fill_effect, buy_effect,
  changed_positions, by_symbol, pop, insert_sorted, sort_positions, text_ltb,
}
use webull_aitrader.Simulator.Sound.{TimesNonnegative, create_portfolio-IsPortfolio}
use webull_aitrader.Simulator.Runs.{FillOrder, account_of, map_ok, fills, trades, fills-trades}
use webull_aitrader.Simulator.Journal.{EquityPoint}
use webull_aitrader.Simulator.Execution.{PaperMarketQuote}
use webull_aitrader.Simulator.Proposal.{SimulationResult, simulate_proposal, valid_inputs}
use webull_aitrader.Simulator.Returns.{simulate_proposal_returns}
use webull_aitrader.Simulator.Steps.{IsRun, Step, simulate_proposal-Stepped}

abbrev morning : Datetime
morning = record { instant = 1000000; day = 1; zone = fixed }

nonnegative_products : TimesNonnegative hundredths
nonnegative_products a b h k = omega arith

abbrev start : PaperPortfolio
start = record {
  initial_cash = pos 100000;
  cash = pos 100000;
  positions = [];
  realized_pnl = pos 0;
  unrealized_pnl = pos 0;
  equity = pos 100000;
  timestamp = morning;
}

starting : create_portfolio (pos 100000) morning ≡ ok start
unfolding create_portfolio
starting = refl

abbrev purchase : FillOrder
purchase = record {
  symbol = codes " msft";
  side = buy;
  quantity = pos 300;
  fill_price = pos 10000;
  mark_price = pos 10100;
  timestamp = morning;
}

abbrev sale : FillOrder
sale = record purchase { side = sell; quantity = pos 100; fill_price = pos 11000 }

abbrev holding : PaperPosition
holding = record {
  symbol = codes "MSFT";
  quantity = pos 300;
  average_cost = pos 10000;
  current_mark = pos 10100;
  market_value = pos 30300;
  unrealized_pnl = pos 300;
}

abbrev invested : PaperPortfolio
invested = record start {
  cash = pos 70000;
  positions = holding ∷ [];
  unrealized_pnl = pos 300;
  equity = pos 100300;
}

buying :
    apply_portfolio_fill hundredths start
      (codes " msft")
      buy
      (pos 300)
      (pos 10000)
      (pos 10100)
      morning
    ≡ ok (invested, pos 0)
unfolding apply_portfolio_fill fill_effect buy_effect changed_positions by_symbol pop insert_sorted
    sort_positions text_ltb normalize strip lstrip rstrip upper text_eq ◌+ℤ◌ ◌-ℤ◌
buying = refl

fills-trades_example :
    map_ok account_of (fills hundredths start (purchase ∷ sale ∷ []))
    ≡ trades hundredths (record { cash = pos 100000; holding = λ k. pos 0 }) (purchase ∷ sale ∷ [])
fills-trades_example =
    fills-trades hundredths nonnegative_products (pos 100000) morning (purchase ∷ sale ∷ [])
      starting

abbrev proposed : ProposedOrder
proposed = record {
  request_id = codes "r1";
  symbol = codes "MSFT";
  side = buy;
  order_type = market;
  quantity = pos 300;
  limit_price = none;
  stop_price = none;
  requested_session = regular;
  created_timestamp = morning;
}

abbrev given_approval : OrderComplianceDecision
given_approval = record {
  approved = true;
  request_id = codes "r1";
  checks_passed = [];
  checks_failed = [];
  maximum_compliant_quantity = some (pos 500);
  normalized_limit_price = none;
  normalized_stop_price = none;
  lower_valid_tick = none;
  upper_valid_tick = none;
}

abbrev quote : PaperMarketQuote
quote = record {
  symbol = codes "MSFT";
  bid = some (pos 9900);
  ask = some (pos 10000);
  last_price = some (pos 10100);
  timestamp = morning;
}

abbrev opening : EquityPoint
opening = record { timestamp = morning; equity = pos 100000 }

inputs_pass : valid_inputs start proposed (opening ∷ []) ≡ true
unfolding valid_inputs
inputs_pass = refl

simulated :
    (r : SimulationResult) × (simulate_proposal hundredths start proposed given_approval quote
        (pos 5)
        []
        (opening ∷ [])
      ≡ ok r)
simulated =
    simulate_proposal_returns hundredths start proposed given_approval quote (pos 5) [] opening []
      nonnegative_products (create_portfolio-IsPortfolio hundredths (pos 100000) morning starting)
      inputs_pass refl refl refl refl

abbrev result : SimulationResult
result = simulated.0

first-IsRun : IsRun hundredths start [] (opening ∷ [])
first-IsRun = record {
  sound = create_portfolio-IsPortfolio hundredths (pos 100000) morning starting;
  numbered = tt;
  curve_good = refl;
  current = refl;
}

simulate_proposal-Stepped_example :
    IsRun hundredths result.portfolio result.journal result.equity_curve
    × Step hundredths start proposed quote given_approval [] (opening ∷ []) result
simulate_proposal-Stepped_example =
    simulate_proposal-Stepped hundredths start proposed quote given_approval [] (opening ∷ [])
      (pos 5) nonnegative_products first-IsRun simulated.1
