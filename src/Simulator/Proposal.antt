-- ===== src/Simulator/Proposal.antt =====
-- app/paper_trading/simulator.py: the step of the simulation that applies one proposal.
use webull_aitrader.Shared.{
  Bool, false, not, ◌||◌, ◌&&◌, Option, none, some, List, [], ◌∷◌, ◌++◌, any, Text, normalize,
  text_eq, ℤ, pos, leb_ℤ, eqb_ℤ, leb, is_mixed, Result, ok, err, ◌>>=◌, ◌>>◌, raise_if, Datetime,
  lacks_tzinfo, Arithmetic, if◌then◌else◌,
}
use webull_aitrader.Orders.Model.{OrderSide}
use webull_aitrader.OrderCompliance.{ProposedOrder, OrderComplianceDecision}
use webull_aitrader.Simulator.{
  PaperPortfolio, FillError, portfolio_malformed, fill_malformed, insufficient_cash,
  exceeds_position, apply_portfolio_fill,
}
use webull_aitrader.Simulator.Journal.{
  JournalEventType, proposal, rejection, not_filled_event, fill_event, portfolio_change, Message,
  proposal_received, fill_recorded, portfolio_updated, compliance_missing, last_price_required,
  malformed_fill, short_of_cash, over_position, no_details, of_proposal, of_fill, of_change,
  JournalEvent, EquityPoint, PerformanceMetrics, ProposalError, timestamps_mixed, inputs_invalid,
  assertion_failed, append_event, bad_point, last_point, calculate_metrics,
}
use webull_aitrader.Simulator.Execution.{
  ExecutionStatus, filled, rejected, not_filled, PaperMarketQuote, FillEvaluation, positive,
  or_zero, evaluate_fill, is_filled,
}

pub record PaperFill : Type 0 where
  pub request_id : Text
  pub symbol : Text
  pub side : OrderSide
  pub quantity : ℤ
  pub fill_price : ℤ
  pub notional : ℤ
  pub realized_pnl : ℤ
  pub timestamp : Datetime

pub record PaperExecutionResult : Type 0 where
  pub status : ExecutionStatus
  pub reason : Message
  pub original_proposal : ProposedOrder
  pub fill : Option PaperFill
  pub portfolio_before : PaperPortfolio
  pub portfolio_after : PaperPortfolio

pub record SimulationResult : Type 0 where
  pub execution : PaperExecutionResult
  pub portfolio : PaperPortfolio
  pub journal : List JournalEvent
  pub equity_curve : List EquityPoint
  pub metrics : PerformanceMetrics

-- `_valid_inputs`, on inputs of the right types
unfoldable pub valid_inputs : PaperPortfolio → ProposedOrder → List EquityPoint → Bool
valid_inputs portfolio order [] = false
valid_inputs portfolio order (first ∷ rest) =
    let latest = last_point first rest in
    not (lacks_tzinfo portfolio.timestamp.zone || lacks_tzinfo order.created_timestamp.zone)
    && leb_ℤ (pos 0) portfolio.cash
    && leb_ℤ (pos 0) portfolio.equity
    && not (any bad_point (first ∷ rest))
    && eqb_ℤ latest.equity portfolio.equity
    && leb latest.timestamp.instant order.created_timestamp.instant

-- The comparison that ends `_valid_inputs` is of timestamps of which only one has an offset.
unfoldable pub inputs_mixed : PaperPortfolio → ProposedOrder → List EquityPoint → Bool
inputs_mixed portfolio order [] = false
inputs_mixed portfolio order (first ∷ rest) =
    let latest = last_point first rest in
    not (lacks_tzinfo portfolio.timestamp.zone || lacks_tzinfo order.created_timestamp.zone)
    && leb_ℤ (pos 0) portfolio.cash
    && leb_ℤ (pos 0) portfolio.equity
    && not (any bad_point (first ∷ rest))
    && eqb_ℤ latest.equity portfolio.equity
    && is_mixed latest.timestamp.zone order.created_timestamp.zone

abbrev pub event_for : ExecutionStatus → JournalEventType
event_for not_filled = not_filled_event
event_for rejected = rejection
event_for filled = rejection

-- `str(exc)`
abbrev pub message_of : FillError → Message
message_of portfolio_malformed = malformed_fill
message_of fill_malformed = malformed_fill
message_of insufficient_cash = short_of_cash
message_of exceeds_position = over_position

module _ (decimal : Arithmetic) where
  -- `_unchanged_result`
  unfoldable pub unchanged_result :
      PaperPortfolio
      → ProposedOrder
      → List JournalEvent
      → List EquityPoint
      → Message
      → ExecutionStatus
      → Result ProposalError SimulationResult
  unchanged_result portfolio order journal curve reason status = do
    updated ←
        append_event journal (event_for status) order.request_id order.created_timestamp reason
          no_details
    metrics ← calculate_metrics decimal updated curve
    ok (record {
      execution = record {
        status = status;
        reason = reason;
        original_proposal = order;
        fill = none;
        portfolio_before = portfolio;
        portfolio_after = portfolio;
      };
      portfolio = portfolio;
      journal = updated;
      equity_curve = curve;
      metrics = metrics;
    })

  abbrev pub paper_fill : ProposedOrder → ℤ → ℤ → Datetime → PaperFill
  paper_fill order price realized timestamp = record {
    request_id = order.request_id;
    symbol = normalize order.symbol;
    side = order.side;
    quantity = order.quantity;
    fill_price = price;
    notional = decimal.times order.quantity price;
    realized_pnl = realized;
    timestamp = timestamp;
  }

  -- The end of `simulate_proposal`, after the portfolio took the fill.
  unfoldable pub filled_result :
      PaperPortfolio
      → ProposedOrder
      → PaperMarketQuote
      → List JournalEvent
      → List EquityPoint
      → Message
      → ℤ
      → PaperPortfolio × ℤ
      → Result ProposalError SimulationResult
  filled_result portfolio order quote journal curve reason price taken =
      let updated = taken.0 in
      let fill = paper_fill order price taken.1 quote.timestamp in
      let new_curve =
        curve ++ (record { timestamp = quote.timestamp; equity = updated.equity }) ∷ [] in
      do
        filled_journal ←
            append_event journal fill_event order.request_id quote.timestamp fill_recorded
              (of_fill price order.quantity taken.1 order.side fill.symbol)
        updated_journal ←
            append_event filled_journal portfolio_change order.request_id quote.timestamp
              portfolio_updated (of_change updated.cash updated.equity)
        metrics ← calculate_metrics decimal updated_journal new_curve
        ok (record {
          execution = record {
            status = filled;
            reason = reason;
            original_proposal = order;
            fill = some fill;
            portfolio_before = portfolio;
            portfolio_after = updated;
          };
          portfolio = updated;
          journal = updated_journal;
          equity_curve = new_curve;
          metrics = metrics;
        })

  -- The `try` around `apply_fill`, and what follows it.
  unfoldable pub settle_fill :
      PaperPortfolio
      → ProposedOrder
      → PaperMarketQuote
      → List JournalEvent
      → List EquityPoint
      → Message
      → ℤ
      → Result FillError (PaperPortfolio × ℤ)
      → Result ProposalError SimulationResult
  settle_fill portfolio order quote journal curve reason price (err error) =
      unchanged_result portfolio order journal curve (message_of error) rejected
  settle_fill portfolio order quote journal curve reason price (ok taken) =
      filled_result portfolio order quote journal curve reason price taken

  -- From the `assert` on.
  unfoldable pub fill_at :
      PaperPortfolio
      → ProposedOrder
      → PaperMarketQuote
      → List JournalEvent
      → List EquityPoint
      → Message
      → Option ℤ
      → Result ProposalError SimulationResult
  fill_at portfolio order quote journal curve reason none = err assertion_failed
  fill_at portfolio order quote journal curve reason (some price) =
      settle_fill portfolio order quote journal curve reason price (
        apply_portfolio_fill decimal portfolio order.symbol order.side order.quantity price
          (or_zero quote.last_price) quote.timestamp)

  -- From the evaluation of the fill on.
  unfoldable pub take_fill :
      PaperPortfolio
      → ProposedOrder
      → PaperMarketQuote
      → List JournalEvent
      → List EquityPoint
      → FillEvaluation
      → Result ProposalError SimulationResult
  take_fill portfolio order quote journal curve fill =
      if not (is_filled fill.status)
      then unchanged_result portfolio order journal curve fill.reason fill.status
      else if not (positive quote.last_price)
      then unchanged_result portfolio order journal curve last_price_required rejected
      else fill_at portfolio order quote journal curve fill.reason fill.fill_price

  -- `simulate_proposal`
  unfoldable pub simulate_proposal :
      PaperPortfolio
      → ProposedOrder
      → OrderComplianceDecision
      → PaperMarketQuote
      → ℤ
      → List JournalEvent
      → List EquityPoint
      → Result ProposalError SimulationResult
  simulate_proposal portfolio order decision quote maximum_quote_age_seconds journal curve = do
    raise_if (inputs_mixed portfolio order curve) timestamps_mixed
    raise_if (not (valid_inputs portfolio order curve)) inputs_invalid
    proposed ←
        append_event journal proposal order.request_id order.created_timestamp proposal_received
          (of_proposal order.symbol order.quantity)
    if not decision.approved || not (text_eq decision.request_id order.request_id)
        then unchanged_result portfolio order proposed curve compliance_missing rejected
        else (evaluate_fill order quote maximum_quote_age_seconds
            >>= take_fill portfolio order quote proposed curve)
