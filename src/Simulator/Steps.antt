-- ===== src/Simulator/Steps.antt =====
-- About one step of the simulation in app/paper_trading/simulator.py.
use webull_aitrader.Shared.{
  ◌≡◌, ◌∙◌, refl, ap, suc, Bool, true, false, not, ◌||◌, ◌⊎◌, inl, inr, Option, none, some, List,
  [], ◌∷◌, ◌++◌, length, any, text_eq, ℤ, Bool-cases, Result-cases, ok, >>=-eq-ok, raise_if-eq-ok,
  ok-injective, Arithmetic, arith,
}
use mathlib.Core.Path.{subst}
use webull_aitrader.OrderCompliance.{ProposedOrder, OrderComplianceDecision}
use webull_aitrader.Simulator.{PaperPortfolio, apply_portfolio_fill}
use webull_aitrader.Simulator.Portfolio.{IsPortfolio}
use webull_aitrader.Simulator.Sound.{TimesNonnegative, apply_portfolio_fill-IsPortfolio}
use webull_aitrader.Simulator.Journal.{
  proposal, fill_event, portfolio_change, Message, proposal_received, fill_recorded,
  portfolio_updated, compliance_missing, last_price_required, no_details, of_proposal, of_fill,
  of_change, JournalEvent, EquityPoint, PerformanceMetrics, timestamps_mixed, inputs_invalid,
  curve_malformed, append_event, bad_point, calculate_metrics,
}
use webull_aitrader.Simulator.Proposal.{
  SimulationResult, valid_inputs, inputs_mixed, event_for, message_of, unchanged_result, paper_fill,
  filled_result, settle_fill, fill_at, take_fill, simulate_proposal,
}
use webull_aitrader.Simulator.Execution.{
  ExecutionStatus, rejected, is_filled, PaperMarketQuote, FillEvaluation, positive, or_zero,
  evaluate_fill,
}
use webull_aitrader.Simulator.Numbered.{Numbered, EndsAt, EndsAt-snoc, append_event-Numbered}

approval_cases : (a b : Bool) → ((not a || not b) ≡ true) ⊎ ((a ≡ true) × (b ≡ true))
approval_cases a b = ground arith

module _ (decimal : Arithmetic) where
  calculate_metrics-good :
      (events : List JournalEvent) (curve : List EquityPoint) {m : PerformanceMetrics}
      → calculate_metrics decimal events curve ≡ ok m
      → any bad_point curve ≡ false
  unfolding calculate_metrics
  calculate_metrics-good events [] h = cc
  calculate_metrics-good events (p ∷ ps) h =
      (raise_if-eq-ok (any bad_point (p ∷ ps)) curve_malformed _ h).0

  -- What the simulation keeps from one proposal to the next.
  pub record IsRun (w : PaperPortfolio) (journal : List JournalEvent) (curve : List EquityPoint)
      : Type 0 where
    pub sound : IsPortfolio decimal w
    pub numbered : Numbered 0 journal
    pub curve_good : any bad_point curve ≡ false
    pub current : EndsAt w.equity curve

  -- What a step does: nothing but write two events, or take the fill.
  pub data Step (w : PaperPortfolio) (order : ProposedOrder) (quote : PaperMarketQuote)
      (decision : OrderComplianceDecision) (journal : List JournalEvent) (curve : List EquityPoint)
      (r : SimulationResult) : Type 0 where
    unchanged :
        r.portfolio ≡ w
        → r.equity_curve ≡ curve
        → length r.journal ≡ suc (suc (length journal))
        → r.execution.fill ≡ none
        → is_filled r.execution.status ≡ false
        → Step w order quote decision journal curve r
    took :
        (price realized : ℤ)
        → decision.approved ≡ true
        → text_eq decision.request_id order.request_id ≡ true
        → apply_portfolio_fill decimal w order.symbol order.side order.quantity price
            (or_zero quote.last_price)
            quote.timestamp
          ≡ ok (r.portfolio, realized)
        → r.execution.fill ≡ some (paper_fill decimal order price realized quote.timestamp)
        → r.equity_curve
          ≡ curve ++ (record { timestamp = quote.timestamp; equity = r.portfolio.equity }) ∷ []
        → length r.journal ≡ suc (suc (suc (length journal)))
        → Step w order quote decision journal curve r

  module _ (w : PaperPortfolio) (order : ProposedOrder) (quote : PaperMarketQuote)
      (decision : OrderComplianceDecision) (journal : List JournalEvent)
      (curve : List EquityPoint) where
    abbrev Stepped : SimulationResult → Type 0
    Stepped r =
        IsRun r.portfolio r.journal r.equity_curve × Step w order quote decision journal curve r

    -- After the first event.
    module _ (proposed : List JournalEvent) (run : IsRun w proposed curve)
        (one_more : length proposed ≡ suc (length journal)) where
      unchanged_result-Stepped :
          (reason : Message) (status : ExecutionStatus) {r : SimulationResult}
          → is_filled status ≡ false
          → unchanged_result decimal w order proposed curve reason status ≡ ok r
          → Stepped r
      unfolding unchanged_result
      unchanged_result-Stepped reason status not_filled_yet h =
          let e =
            >>=-eq-ok
              (append_event proposed (event_for status) order.request_id order.created_timestamp
                reason no_details)
              _ h in
          let n =
            append_event-Numbered proposed (event_for status) order.request_id
              order.created_timestamp reason no_details e.1 run.numbered in
          let m = >>=-eq-ok (calculate_metrics decimal e.0 curve) _ e.2 in
          subst Stepped (ok-injective m.2) (
            record {
              sound = run.sound;
              numbered = n.0;
              curve_good = run.curve_good;
              current = run.current;
            },
            unchanged refl refl (n.1 ∙ ap suc one_more) refl not_filled_yet,
          )

      filled_result-Stepped :
          (reason : Message) (price : ℤ) (taken : PaperPortfolio × ℤ) {r : SimulationResult}
          → TimesNonnegative decimal
          → decision.approved ≡ true
          → text_eq decision.request_id order.request_id ≡ true
          → apply_portfolio_fill decimal w order.symbol order.side order.quantity price
              (or_zero quote.last_price)
              quote.timestamp
            ≡ ok taken
          → filled_result decimal w order quote proposed curve reason price taken ≡ ok r
          → Stepped r
      unfolding filled_result
      filled_result-Stepped reason price taken nonnegative is_approved same_id filled_by h =
          let fill = paper_fill decimal order price taken.1 quote.timestamp in
          let details = of_fill price order.quantity taken.1 order.side fill.symbol in
          let e =
            >>=-eq-ok
              (append_event proposed fill_event order.request_id quote.timestamp fill_recorded
                details)
              _ h in
          let n =
            append_event-Numbered proposed fill_event order.request_id quote.timestamp fill_recorded
              details e.1 run.numbered in
          let change = of_change taken.0.cash taken.0.equity in
          let f =
            >>=-eq-ok
              (append_event e.0 portfolio_change order.request_id quote.timestamp portfolio_updated
                change)
              _ e.2 in
          let k =
            append_event-Numbered e.0 portfolio_change order.request_id quote.timestamp
              portfolio_updated change f.1 n.0 in
          let point : EquityPoint = record {
            timestamp = quote.timestamp;
            equity = taken.0.equity;
          } in
          let m = >>=-eq-ok (calculate_metrics decimal f.0 (curve ++ point ∷ [])) _ f.2 in
          subst Stepped (ok-injective m.2) (
            record {
              sound =
                  apply_portfolio_fill-IsPortfolio decimal nonnegative w order.symbol order.side
                    order.quantity price (or_zero quote.last_price) quote.timestamp run.sound
                    filled_by;
              numbered = k.0;
              curve_good = calculate_metrics-good f.0 (curve ++ point ∷ []) m.1;
              current = EndsAt-snoc curve point;
            },
            took price taken.1 is_approved same_id filled_by refl refl
                (k.1 ∙ ap suc (n.1 ∙ ap suc one_more)),
          )

      fill_at-Stepped :
          (reason : Message) (price : Option ℤ) {r : SimulationResult}
          → TimesNonnegative decimal
          → decision.approved ≡ true
          → text_eq decision.request_id order.request_id ≡ true
          → fill_at decimal w order quote proposed curve reason price ≡ ok r
          → Stepped r
      unfolding fill_at settle_fill
      fill_at-Stepped reason none nonnegative is_approved same_id h = cc
      fill_at-Stepped reason (some price) nonnegative is_approved same_id h =
          elim (Result-cases (
            apply_portfolio_fill decimal w order.symbol order.side order.quantity price
              (or_zero quote.last_price) quote.timestamp)) [
                | inl taken ↦
                    filled_result-Stepped reason price taken.0 nonnegative is_approved same_id
                      taken.1 (rw taken.1 at h)
                | inr failed ↦
                    unchanged_result-Stepped (message_of failed.0) rejected refl (rw failed.1 at h)
              ]

      take_fill-Stepped :
          (fill : FillEvaluation) {r : SimulationResult}
          → TimesNonnegative decimal
          → decision.approved ≡ true
          → text_eq decision.request_id order.request_id ≡ true
          → take_fill decimal w order quote proposed curve fill ≡ ok r
          → Stepped r
      unfolding take_fill
      take_fill-Stepped fill nonnegative is_approved same_id h =
          elim (Bool-cases (is_filled fill.status)) [
            | inr open_still ↦
                unchanged_result-Stepped fill.reason fill.status open_still (rw open_still at h)
            | inl yes_filled ↦ elim (Bool-cases (positive quote.last_price)) [
              | inr no_mark ↦
                  unchanged_result-Stepped last_price_required rejected refl
                    (rw (yes_filled, no_mark) at h)
              | inl marked ↦
                  fill_at-Stepped fill.reason fill.fill_price nonnegative is_approved same_id
                    (rw (yes_filled, marked) at h)
            ]
          ]

    -- A step of the simulation that returns, from a sound portfolio with a numbered journal and a curve
    -- that ends at its equity, keeps all of that, where products of positive amounts are not negative.
    -- It either changes neither portfolio nor curve and writes two events, or, for an approval of this
    -- very request, takes the fill that the portfolio accepts and writes three events and one point.
    pub simulate_proposal-Stepped :
        (maximum_quote_age_seconds : ℤ) {r : SimulationResult}
        → TimesNonnegative decimal
        → IsRun w journal curve
        → simulate_proposal decimal w order decision quote maximum_quote_age_seconds journal curve
          ≡ ok r
        → Stepped r
    unfolding simulate_proposal
    simulate_proposal-Stepped age nonnegative run h =
        let m = raise_if-eq-ok (inputs_mixed w order curve) timestamps_mixed _ h in
        let a = raise_if-eq-ok (not (valid_inputs w order curve)) inputs_invalid _ m.1 in
        let details = of_proposal order.symbol order.quantity in
        let e =
          >>=-eq-ok
            (append_event journal proposal order.request_id order.created_timestamp
              proposal_received details)
            _ a.1 in
        let n =
          append_event-Numbered journal proposal order.request_id order.created_timestamp
            proposal_received details e.1 run.numbered in
        let next : IsRun w e.0 curve = record {
          sound = run.sound;
          numbered = n.0;
          curve_good = run.curve_good;
          current = run.current;
        } in
        elim (approval_cases decision.approved (text_eq decision.request_id order.request_id)) [
          | inl refused ↦
              unchanged_result-Stepped e.0 next n.1 compliance_missing rejected refl
                (rw refused at e.2)
          | inr allowed ↦
              let f =
                >>=-eq-ok (evaluate_fill order quote age)
                  (take_fill decimal w order quote e.0 curve) (rw (allowed.0, allowed.1) at e.2) in
              take_fill-Stepped e.0 next n.1 f.0 nonnegative allowed.0 allowed.1 f.2
        ]
