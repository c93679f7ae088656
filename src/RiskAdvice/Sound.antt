-- ===== src/RiskAdvice/Sound.antt =====
-- About the decisions of app/risk/validator.py.
use webull_aitrader.Shared.{
  ◌≡◌, ◌≢◌, ◌↔◌, refl, true, false, ◌⊎◌, inl, inr, some, ℤ, pos, ◌≤ℤ◌, ◌<ℤ◌, Bool-cases, arith,
  Arithmetic, Result, ok,
}
use webull_aitrader.RiskAdvice.{
  ResponseAction, buy_action, sell_action, hold_action, AiResponse, MarketSnapshot, RiskLimits,
  LegacyRiskDecision, RiskWarning, RiskModelError, legacy_risk_decision, outside_of, whole_number,
  invalid_price, malformed_confidence,
}
use webull_aitrader.RiskAdvice.Validator.{
  evaluate_risk, advice, valid_price, advice_for, rejected_advice, market_advice, held_advice,
}
use webull_aitrader.RiskAdvice.Percent.{
  Percentages, inside, score_inside, unapproved_empty, percent_inside,
}
use webull_aitrader.RiskAdvice.Levels.{Worthwhile, levels_clear}

module _ (decimal : Arithmetic) (response : AiResponse) (snapshot : MarketSnapshot)
    (limits : RiskLimits) where
  -- What an approval of a trade asks.
  pub record Acceptable : Type 0 where
    pub confidence_low_end : pos 0 ≤ℤ response.confidence
    pub confidence_high_end : response.confidence ≤ℤ pos 100
    pub confident : limits.minimum_confidence ≤ℤ response.confidence
    pub priced : pos 0 <ℤ snapshot.close
    pub stop_price : ℤ
    pub target_price : ℤ
    pub stop_given : response.stop_loss ≡ some stop_price
    pub target_given : response.take_profit ≡ some target_price
    pub stop_positive : pos 0 <ℤ stop_price
    pub target_positive : pos 0 <ℤ target_price
    pub worthwhile :
        Worthwhile decimal limits response.action snapshot.close stop_price target_price

  -- A decision that approves what is acceptable and gives nothing else any exposure.
  pub record GoodAdvice (d : LegacyRiskDecision) : Type 0 where
    pub approved_iff : (d.approved ≡ true) ↔ ((response.action ≡ hold_action) ⊎ Acceptable)
    pub no_exposure : d.approved ≡ false → d.max_position_percent ≡ pos 0
    pub score_at_least : pos 0 ≤ℤ d.risk_score
    pub score_at_most : d.risk_score ≤ℤ pos 100

-- A decision whose score and percentage are in range is made.
made :
    (decimal : Arithmetic) (d : LegacyRiskDecision)
    → outside_of (pos 0) (pos 100) d.risk_score ≡ false
    → outside_of (pos 0) (whole_number decimal (pos 100)) d.max_position_percent ≡ false
    → legacy_risk_decision decimal d ≡ ok d
unfolding legacy_risk_decision
made decimal d score percent = rw score (rw percent refl)

module _ (decimal : Arithmetic) (response : AiResponse) (snapshot : MarketSnapshot)
    (limits : RiskLimits) (laws : Percentages decimal limits) where
  -- A decision that is made from `outcome` and is right.
  Advises : Result RiskModelError LegacyRiskDecision → Type 0
  Advises outcome =
      (d : LegacyRiskDecision) × (outcome ≡ ok d) × GoodAdvice decimal response snapshot limits d

  none_inside : outside_of (pos 0) (whole_number decimal (pos 100)) (pos 0) ≡ false
  none_inside =
      inside (whole_number decimal (pos 100)) (pos 0) (omega arith)
        (omega (arith, laws.maximum_not_negative, laws.maximum_at_most))

  rejected-Advises :
      (w : RiskWarning)
      → response.action ≢ hold_action
      → ¬ Acceptable decimal response snapshot limits
      → Advises (rejected_advice decimal w)
  unfolding Advises
  rejected-Advises w market bad = (
    _,
    made decimal _ refl none_inside,
    record {
      approved_iff = (λ h. cc, elim [ inl hold ↦ absurd (market hold) | inr a ↦ absurd (bad a) ]);
      no_exposure = λ h. refl;
      score_at_least = omega arith;
      score_at_most = omega arith;
    },
  )

  advice-Advises :
      response.action ≢ hold_action
      → outside_of (pos 0) (pos 100) response.confidence ≡ false
      → valid_price snapshot.close ≡ true
      → Advises (advice decimal response snapshot limits)
  unfolding Advises advice
  advice-Advises market known priced =
      let clear =
        levels_clear decimal limits snapshot.close response.action response.confidence
          response.stop_loss response.take_profit market in
      (
        _,
        made decimal _ (score_inside decimal _ _ _) (percent_inside laws _ _ _ _),
        record {
          approved_iff = (
            λ h.
                let c = clear.0 h in
                let l = c.1 in
                inr record {
                  confidence_low_end = ground arith;
                  confidence_high_end = ground arith;
                  confident = c.0;
                  priced = ground arith;
                  stop_price = l.0;
                  target_price = l.1;
                  stop_given = l.2;
                  target_given = l.3;
                  stop_positive = l.4;
                  target_positive = l.5;
                  worthwhile = l.6;
                },
            elim [
              | inl hold ↦ absurd (market hold)
              | inr a ↦ clear.1 (
                a.confident,
                (
                  a.stop_price, a.target_price, a.stop_given, a.target_given, a.stop_positive,
                  a.target_positive, a.worthwhile,
                ),
              )
            ],
          );
          no_exposure = λ h. unapproved_empty decimal _ _ _ _ h;
          score_at_least =
              ground
                (arith, score_inside decimal response.confidence snapshot.close snapshot.atr_14);
          score_at_most =
              ground
                (arith, score_inside decimal response.confidence snapshot.close snapshot.atr_14);
        },
      )

  market_advice-Advises :
      response.action ≢ hold_action → Advises (market_advice decimal response snapshot limits)
  unfolding Advises
  market_advice-Advises market =
      elim (Bool-cases (outside_of (pos 0) (pos 100) response.confidence)) [
        | inl far ↦ rw far (
            rejected-Advises malformed_confidence market (λ a.
              let low = a.confidence_low_end in let high = a.confidence_high_end in ground arith))
        | inr known ↦ elim (Bool-cases (valid_price snapshot.close)) [
          | inl priced ↦ rw (known, priced) (advice-Advises market known priced)
          | inr unpriced ↦
              rw (known, unpriced)
                (rejected-Advises invalid_price market (λ a. let price = a.priced in ground arith))
        ]
      ]

  held-Advises : response.action ≡ hold_action → Advises (held_advice decimal snapshot)
  unfolding Advises
  held-Advises hold = (
    _,
    made decimal _ refl none_inside,
    record {
      approved_iff = (λ h. inl hold, λ h. refl);
      no_exposure = λ h. refl;
      score_at_least = omega arith;
      score_at_most = omega arith;
    },
  )

  action-Advises :
      (action : ResponseAction)
      → response.action ≡ action
      → Advises (advice_for decimal action response snapshot limits)
  action-Advises hold_action same = held-Advises same
  action-Advises buy_action same = market_advice-Advises (λ hold. cc)
  action-Advises sell_action same = market_advice-Advises (λ hold. cc)

-- With limits that are percentages, the validator returns a decision on every response: it approves a hold,
-- and a trade exactly when its confidence, its price and its levels are acceptable; what it does not
-- approve gets no exposure, and the score is between 0 and 100.
pub evaluate_risk-GoodAdvice :
    (decimal : Arithmetic) (response : AiResponse) (snapshot : MarketSnapshot) (limits : RiskLimits)
    → Percentages decimal limits
    → (d : LegacyRiskDecision) × (evaluate_risk decimal response snapshot limits ≡ ok d)
      × GoodAdvice decimal response snapshot limits d
unfolding evaluate_risk Advises
evaluate_risk-GoodAdvice decimal response snapshot limits laws =
    action-Advises decimal response snapshot limits laws response.action refl
