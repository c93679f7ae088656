-- ===== src/Simulator/Returns.antt =====
-- About when `simulate_proposal` in app/paper_trading/simulator.py returns.
use webull_aitrader.Shared.{
  ◌≡◌, ◌∙◌, refl, sym, ap, Bool, true, false, not, ◌||◌, ◌&&◌, inl, inr, List, [], ◌∷◌, ◌++◌, any,
  any-append, Text, text_eq, ℤ, pos, ◌≤ℤ◌, ◌+ℤ◌, leb_ℤ, ltb_ℤ, eqb_ℤ, leb, is_mixed,
  timedelta_seconds, pos_part, Bool-cases, Result-cases, is_ok→ok, ok, Datetime, lacks_tzinfo,
  Arithmetic, arith, All, sum_of, int_laws,
}
use mathlib.Core.Path.{subst}
use webull_aitrader.OrderCompliance.{ProposedOrder, OrderComplianceDecision}
use webull_aitrader.Simulator.{PaperPosition, PaperPortfolio, apply_portfolio_fill}
use webull_aitrader.Simulator.Portfolio.{GoodPosition, IsPortfolio}
use webull_aitrader.Simulator.Sound.{TimesNonnegative, apply_portfolio_fill-IsPortfolio}
use webull_aitrader.Simulator.Journal.{
  JournalEventType, proposal, fill_event, portfolio_change, Message, proposal_received,
  fill_recorded, portfolio_updated, compliance_missing, last_price_required, Details, no_details,
  of_proposal, of_fill, of_change, JournalEvent, EquityPoint, PerformanceMetrics, append_event,
  bad_point, last_point, calculate_metrics,
}
use webull_aitrader.Simulator.Proposal.{
  SimulationResult, valid_inputs, inputs_mixed, event_for, message_of, unchanged_result, paper_fill,
  filled_result, settle_fill, fill_at, take_fill, simulate_proposal,
}
use webull_aitrader.Simulator.Execution.{
  FillEvaluation, ExecutionStatus, rejected, is_filled, PaperMarketQuote, positive, or_zero,
  evaluate_fill,
}
use webull_aitrader.Simulator.Filled.{evaluate_fill-filled, evaluate_fill_returns}

append_event_returns :
    (es : List JournalEvent) (t : JournalEventType) (id : Text) (at_time : Datetime) (m : Message)
    (d : Details)
    → lacks_tzinfo at_time.zone ≡ false
    → (es' : List JournalEvent) × (append_event es t id at_time m d ≡ ok es')
unfolding append_event
append_event_returns es t id at_time m d aware =
    is_ok→ok (append_event es t id at_time m d) (rw aware refl)

good_point :
    (d : Datetime) (v : ℤ)
    → lacks_tzinfo d.zone ≡ false
    → pos 0 ≤ℤ v
    → (lacks_tzinfo d.zone || ltb_ℤ v (pos 0)) ≡ false
good_point d v h k = ground arith

neither : (a b : Bool) → a ≡ false → b ≡ false → (a || (b || false)) ≡ false
neither a b h k = ground arith

sum_nonnegative : (a b : ℤ) → pos 0 ≤ℤ a → pos 0 ≤ℤ b → pos 0 ≤ℤ a +ℤ b
sum_nonnegative a b h k = omega int_laws

module _ (decimal : Arithmetic) where
  calculate_metrics_returns :
      (events : List JournalEvent) (first : EquityPoint) (rest : List EquityPoint)
      → any bad_point (first ∷ rest) ≡ false
      → leb_ℤ first.equity (pos 0) ≡ false
      → (m : PerformanceMetrics) × (calculate_metrics decimal events (first ∷ rest) ≡ ok m)
  unfolding calculate_metrics
  calculate_metrics_returns events first rest good above =
      is_ok→ok (calculate_metrics decimal events (first ∷ rest)) (rw (good, above) refl)

  values_nonnegative :
      TimesNonnegative decimal
      → (ps : List PaperPosition) → All (GoodPosition decimal) ps
      → pos 0 ≤ℤ sum_of (λ p. p.market_value) ps
  values_nonnegative nonnegative [] h = omega arith
  values_nonnegative nonnegative (p ∷ ps) h =
      sum_nonnegative p.market_value (sum_of (λ p. p.market_value) ps)
        (subst (λ v. pos 0 ≤ℤ v) (sym h.0.value_is)
          (nonnegative p.quantity p.current_mark h.0.long h.0.mark_positive))
        (values_nonnegative nonnegative ps h.1)

  equity_nonnegative :
      TimesNonnegative decimal → (w : PaperPortfolio) → IsPortfolio decimal w → pos 0 ≤ℤ w.equity
  equity_nonnegative nonnegative w good =
      subst (λ v. pos 0 ≤ℤ v) (sym good.equity_is)
        (sum_nonnegative w.cash (sum_of (λ p. p.market_value) w.positions) good.cash_nonnegative
          (values_nonnegative nonnegative w.positions good.good_positions))

  module _ (w : PaperPortfolio) (order : ProposedOrder) (quote : PaperMarketQuote)
      (journal : List JournalEvent) (first : EquityPoint) (rest : List EquityPoint)
      (nonnegative : TimesNonnegative decimal) (sound : IsPortfolio decimal w)
      (aware : lacks_tzinfo order.created_timestamp.zone ≡ false)
      (good : any bad_point (first ∷ rest) ≡ false)
      (above : leb_ℤ first.equity (pos 0) ≡ false) where
    unchanged_returns :
        (reason : Message) (status : ExecutionStatus)
        → (r : SimulationResult) × (unchanged_result decimal w order journal
              (first ∷ rest)
              reason
              status
            ≡ ok r)
    unfolding unchanged_result
    unchanged_returns reason status =
        let e =
          append_event_returns journal (event_for status) order.request_id order.created_timestamp
            reason no_details aware in
        let m = calculate_metrics_returns e.0 first rest good above in
        is_ok→ok (unchanged_result decimal w order journal (first ∷ rest) reason status)
          (rw (e.1, m.1) refl)

    filled_returns :
        (reason : Message) (price : ℤ) (taken : PaperPortfolio × ℤ)
        → lacks_tzinfo quote.timestamp.zone ≡ false
        → pos 0 ≤ℤ taken.0.equity
        → (r : SimulationResult) × (filled_result decimal w order quote journal
              (first ∷ rest)
              reason
              price
              taken
            ≡ ok r)
    unfolding filled_result
    filled_returns reason price taken quote_aware some_equity =
        let fill = paper_fill decimal order price taken.1 quote.timestamp in
        let point : EquityPoint = record { timestamp = quote.timestamp; equity = taken.0.equity } in
        let e =
          append_event_returns journal fill_event order.request_id quote.timestamp fill_recorded
            (of_fill price order.quantity taken.1 order.side fill.symbol) quote_aware in
        let f =
          append_event_returns e.0 portfolio_change order.request_id quote.timestamp
            portfolio_updated (of_change taken.0.cash taken.0.equity) quote_aware in
        let still_good : any bad_point (first ∷ rest ++ point ∷ []) ≡ false =
          any-append bad_point (first ∷ rest) (point ∷ [])
          ∙ neither (any bad_point (first ∷ rest)) (bad_point point) good
              (good_point quote.timestamp taken.0.equity quote_aware some_equity) in
        let m = calculate_metrics_returns f.0 first (rest ++ point ∷ []) still_good above in
        is_ok→ok (filled_result decimal w order quote journal (first ∷ rest) reason price taken)
          (rw (e.1, f.1, m.1) refl)

    take_returns :
        (age : ℤ) (fill : FillEvaluation)
        → evaluate_fill order quote age ≡ ok fill
        → (r : SimulationResult) × (take_fill decimal w order quote journal (first ∷ rest) fill
            ≡ ok r)
    unfolding take_fill fill_at settle_fill
    take_returns age fill evaluated = elim (Bool-cases (is_filled fill.status)) [
      | inr open_still ↦ rw open_still (unchanged_returns fill.reason fill.status)
      | inl done ↦ elim (Bool-cases (positive quote.last_price)) [
        | inr no_mark ↦ rw (done, no_mark) (unchanged_returns last_price_required rejected)
        | inl marked ↦
            let price = evaluate_fill-filled order quote age evaluated done in
            elim (Result-cases (
              apply_portfolio_fill decimal w order.symbol order.side order.quantity price.1
                (or_zero quote.last_price) quote.timestamp)) [
                  | inl taken ↦
                      let next =
                        apply_portfolio_fill-IsPortfolio decimal nonnegative w order.symbol
                          order.side order.quantity price.1 (or_zero quote.last_price)
                          quote.timestamp sound taken.1 in
                      rw (done, marked, price.2, taken.1)
                        (filled_returns fill.reason price.1 taken.0 price.0
                          (equity_nonnegative nonnegative taken.0.0 next))
                  | inr failed ↦
                      rw (done, marked, price.2, failed.1)
                        (unchanged_returns (message_of failed.0) rejected)
                ]
      ]
    ]

  last_false : (a b c d e f : Bool) → f ≡ false → (a && b && c && d && e && f) ≡ false
  last_false a b c d e f h = ground arith

  -- The parts of the test of the inputs that matter here.
  valid_parts :
      (a b c d e f g : Bool)
      → (not (a || b) && c && d && not e && f && g) ≡ true
      → (b ≡ false) × (e ≡ false)
  valid_parts a b c d e f g h = ground arith

  pub simulate_proposal_returns :
      (w : PaperPortfolio) (order : ProposedOrder) (decision : OrderComplianceDecision)
      (quote : PaperMarketQuote) (maximum_quote_age_seconds : ℤ) (journal : List JournalEvent)
      (first : EquityPoint) (rest : List EquityPoint)
      → TimesNonnegative decimal
      → IsPortfolio decimal w
      → valid_inputs w order (first ∷ rest) ≡ true
      → leb_ℤ first.equity (pos 0) ≡ false
      → is_mixed (last_point first rest).timestamp.zone order.created_timestamp.zone ≡ false
      → is_mixed order.created_timestamp.zone quote.timestamp.zone ≡ false
      → leb timedelta_seconds (pos_part maximum_quote_age_seconds) ≡ false
      → (r : SimulationResult) × (simulate_proposal decimal w order decision quote
            maximum_quote_age_seconds journal
            (first ∷ rest)
          ≡ ok r)
  unfolding simulate_proposal valid_inputs inputs_mixed
  simulate_proposal_returns w order decision quote age journal first rest nonnegative sound valid
        above curve_kind quote_kind short =
      let evaluated = evaluate_fill_returns order quote age quote_kind short in
      let latest = last_point first rest in
      let parts =
        valid_parts (lacks_tzinfo w.timestamp.zone) (lacks_tzinfo order.created_timestamp.zone)
          (leb_ℤ (pos 0) w.cash) (leb_ℤ (pos 0) w.equity) (any bad_point (first ∷ rest))
          (eqb_ℤ latest.equity w.equity)
          (leb latest.timestamp.instant order.created_timestamp.instant) valid in
      let alike =
        last_false
          (not (lacks_tzinfo w.timestamp.zone || lacks_tzinfo order.created_timestamp.zone))
          (leb_ℤ (pos 0) w.cash) (leb_ℤ (pos 0) w.equity) (not (any bad_point (first ∷ rest)))
          (eqb_ℤ latest.equity w.equity)
          (is_mixed latest.timestamp.zone order.created_timestamp.zone) curve_kind in
      let e =
        append_event_returns journal proposal order.request_id order.created_timestamp
          proposal_received (of_proposal order.symbol order.quantity) parts.0 in
      let refused = not decision.approved || not (text_eq decision.request_id order.request_id) in
      elim (Bool-cases refused) [
        | inl no_approval ↦
            rw (alike, ap not valid, e.1, no_approval)
              (unchanged_returns w order quote e.0 first rest nonnegative sound parts.0 parts.1
                above compliance_missing rejected)
        | inr allowed ↦
            rw (alike, ap not valid, e.1, allowed, evaluated.1)
              (take_returns w order quote e.0 first rest nonnegative sound parts.0 parts.1 above age
                evaluated.0 evaluated.1)
      ]
