-- ===== src/Simulator/Journal.antt =====
-- app/paper_trading/journal.py and metrics.py: the numbered journal of the proposal simulator, the
-- equity curve, and what is computed from both. Messages and details are values in place of texts.
use webull_aitrader.Shared.{
  ℕ, zero, suc, ◌+◌, ◌*◌, Bool, ◌||◌, Option, none, some, List, [], ◌∷◌, ◌++◌, length, any, filter,
  Text, ℤ, pos, ◌-ℤ◌, ltb_ℤ, leb_ℤ, eqb_ℤ, max_ℤ, sum_of, abs_ℤ, Result, ok, err, ◌>>◌, raise_if,
  Datetime, lacks_tzinfo, Arithmetic, if◌then◌else◌,
}
use webull_aitrader.Orders.Model.{OrderSide}

pub data JournalEventType : Type 0 where
  proposal rejection not_filled_event fill_event portfolio_change : JournalEventType

pub data Message : Type 0 where
  proposal_received fill_recorded portfolio_updated compliance_missing : Message
  age_malformed naive_timestamps quote_stale symbol_mismatch type_unsupported : Message
  side_price_required market_at_quote limit_required not_crossed limit_at_quote : Message
  last_price_required malformed_fill short_of_cash over_position : Message

pub data Details : Type 0 where
  no_details : Details
  -- symbol and quantity
  of_proposal : Text → ℤ → Details
  -- fill price, quantity, realized profit, side and symbol
  of_fill : ℤ → ℤ → ℤ → OrderSide → Text → Details
  -- cash and equity
  of_change : ℤ → ℤ → Details

pub record JournalEvent : Type 0 where
  pub sequence : ℕ
  pub event_type : JournalEventType
  pub request_id : Text
  pub timestamp : Datetime
  pub message : Message
  pub details : Details

pub record EquityPoint : Type 0 where
  pub timestamp : Datetime
  pub equity : ℤ

pub record PerformanceMetrics : Type 0 where
  pub win_rate : ℤ
  pub average_winner : Option ℤ
  pub average_loser : Option ℤ
  pub profit_factor : Option ℤ
  pub expectancy : Option ℤ
  pub total_return : ℤ
  pub maximum_drawdown : ℤ

pub data ProposalError : Type 0 where
  inputs_invalid naive_event curve_malformed initial_not_positive assertion_failed : ProposalError
  -- the TypeError of mixed timestamps, and the OverflowError of a `timedelta`
  timestamps_mixed age_too_large : ProposalError

-- `append_event`; a journal is its events
unfoldable pub append_event :
    List JournalEvent
    → JournalEventType
    → Text
    → Datetime
    → Message
    → Details
    → Result ProposalError (List JournalEvent)
append_event events event_type request_id timestamp message details = do
  raise_if (lacks_tzinfo timestamp.zone) naive_event
  ok (
      events
      ++ (record {
        sequence = length events + 1;
        event_type = event_type;
        request_id = request_id;
        timestamp = timestamp;
        message = message;
        details = details;
      })
        ∷ [])

-- `_valid_point`, negated
abbrev pub bad_point : EquityPoint → Bool
bad_point point = lacks_tzinfo point.timestamp.zone || ltb_ℤ point.equity (pos 0)

abbrev pub last_point : EquityPoint → List EquityPoint → EquityPoint
last_point point [] = point
last_point point (next ∷ rest) = last_point next rest

-- The realized profit in the details of a fill, if it is not zero.
unfoldable pub profit_in : JournalEventType → Details → Option ℤ
profit_in fill_event (of_fill price quantity realized side symbol) =
    if eqb_ℤ realized (pos 0) then none else some realized
profit_in event_type _ = none

abbrev pub profit_of : JournalEvent → Option ℤ
profit_of event = profit_in event.event_type event.details

-- `outcomes`
unfoldable pub outcomes_of : List JournalEvent → List ℤ
outcomes_of [] = []
outcomes_of (event ∷ events) =
    let rest = outcomes_of events in
    elim (profit_of event) [ none ↦ rest | some profit ↦ profit ∷ rest ]

abbrev pub total : List ℤ → ℤ
total = sum_of (λ v. v)

module _ (decimal : Arithmetic) where
  -- `Decimal(n)`
  abbrev pub whole : ℕ → ℤ
  whole n = pos (n * decimal.scale)

  -- `sum(values, ZERO) / Decimal(len(values)) if values else None`
  abbrev pub average : List ℤ → Option ℤ
  average [] = none
  average (v ∷ vs) = some (decimal.divide (total (v ∷ vs)) (whole (length (v ∷ vs))))

  abbrev pub win_rate_of : ℕ → ℕ → ℤ
  win_rate_of won zero = pos 0
  win_rate_of won (suc n) = decimal.times (decimal.divide (whole won) (whole (suc n))) (whole 100)

  -- The loop of the drawdown, with the peak and the maximum so far.
  unfoldable pub drawdown_loop : ℤ → ℤ → List EquityPoint → ℤ
  drawdown_loop peak maximum [] = maximum
  drawdown_loop peak maximum (point ∷ points) =
      let top = max_ℤ peak point.equity in
      let drawdown =
        if ltb_ℤ (pos 0) top
        then decimal.times (decimal.divide (top -ℤ point.equity) top) (whole 100)
        else pos 0 in
      drawdown_loop top (max_ℤ maximum drawdown) points

  -- The metrics of the outcomes and of a curve that was checked.
  unfoldable pub metrics_of : List ℤ → EquityPoint → List EquityPoint → PerformanceMetrics
  metrics_of outcomes first rest =
      let winners = filter (λ v. ltb_ℤ (pos 0) v) outcomes in
      let losers = filter (λ v. ltb_ℤ v (pos 0)) outcomes in
      let gross_loss = abs_ℤ (total losers) in
      record {
        win_rate = win_rate_of (length winners) (length outcomes);
        average_winner = average winners;
        average_loser = average losers;
        profit_factor =
            if eqb_ℤ gross_loss (pos 0)
            then none
            else some (decimal.divide (total winners) gross_loss);
        expectancy = average outcomes;
        total_return =
            decimal.times
              (decimal.divide ((last_point first rest).equity -ℤ first.equity) first.equity)
              (whole 100);
        maximum_drawdown = drawdown_loop first.equity (pos 0) (first ∷ rest);
      }

  -- `calculate_metrics`
  unfoldable pub calculate_metrics :
      List JournalEvent → List EquityPoint → Result ProposalError PerformanceMetrics
  calculate_metrics events [] = err curve_malformed
  calculate_metrics events (first ∷ rest) = do
    raise_if (any bad_point (first ∷ rest)) curve_malformed
    raise_if (leb_ℤ first.equity (pos 0)) initial_not_positive
    ok (metrics_of (outcomes_of events) first rest)
