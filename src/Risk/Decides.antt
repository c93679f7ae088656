-- ===== src/Risk/Decides.antt =====
-- About when `RiskCommittee.evaluate` in app/risk/committee.py returns, and when it approves in full.
use webull_aitrader.Shared.{
  ◌≡◌, ◌↔◌, refl, Bool, false, not, ◌||◌, ◌&&◌, inl, inr, List, [], ◌∷◌, filter, All, ℤ, pos, ◌≤ℤ◌,
  leb_ℤ, ltb_ℤ, min_ℤ, eqb_ℤ, Bool-cases, ok, Arithmetic, arith,
}
use webull_aitrader.Risk.{
  approve, modify, reject, approved, RiskPolicy, RiskState, RiskEvaluationRequest, RiskLimitCheck,
  RiskDecision, RiskDecisionAction, RiskReasonCode, multiple_limits, has_none, outside_unit,
  is_reject, validate_state, validate_policy, validate_risk_request, validate_risk_decision,
}
use webull_aitrader.Risk.Committee.{
  blocks, reduces, checks_of, candidate_of, approved_risk, decision, primary_of, first_code,
  rejection, modification, approval, choose, evaluate,
}
use webull_aitrader.Risk.Checks.{
  Passed, none_failed-Passed, Passed-none_block, Passed-none_limit, candidate_positive,
}
use webull_aitrader.Risk.Bounds.{has_none→[], Branch, rejected, modified, full, choose-Branch}
use webull_aitrader.Risk.Constructed.{
  IsFraction, IsRequest, IsState, IsPolicy, validate_risk_request-IsRequest, validate_state-IsState,
  validate_policy-IsPolicy, validate_risk_decision-SameDecision, validate_risk_decision_returns,
}

primary_returns :
    (cs : List RiskLimitCheck)
    → has_none cs ≡ false
    → (code : RiskReasonCode) × (primary_of cs ≡ ok code)
primary_returns [] h = cc
primary_returns (c ∷ []) h = (c.code, refl)
primary_returns (c ∷ d ∷ cs) h = (multiple_limits, refl)

first_returns :
    (cs : List RiskLimitCheck)
    → has_none cs ≡ false
    → (code : RiskReasonCode) × (first_code cs ≡ ok code)
first_returns [] h = cc
first_returns (c ∷ cs) h = (c.code, refl)

zero_good : (decimal : Arithmetic) → (ltb_ℤ (pos 0) (pos 0) || outside_unit decimal (pos 0)) ≡ false
zero_good decimal = ground arith

amounts_good :
    (decimal : Arithmetic) (v r : ℤ)
    → ltb_ℤ v (pos 0) ≡ false
    → IsFraction decimal r
    → (ltb_ℤ v (pos 0) || outside_unit decimal r) ≡ false
amounts_good decimal v r h k = ground arith

approved_risk-IsFraction :
    (decimal : Arithmetic) (a b : ℤ)
    → IsFraction decimal a
    → IsFraction decimal b
    → IsFraction decimal (min_ℤ a b)
approved_risk-IsFraction decimal a b h k = ground arith

nonnegative : (v : ℤ) → pos 0 ≤ℤ v → ltb_ℤ v (pos 0) ≡ false
nonnegative v h = ground arith

above_good : (v : ℤ) → leb_ℤ v (pos 0) ≡ false → ltb_ℤ v (pos 0) ≡ false
above_good v h = ground arith

right_false : (a b : Bool) → (a || b) ≡ false → b ≡ false
right_false a b h = ground arith

module _ (decimal : Arithmetic) (p : RiskPolicy) (q : RiskEvaluationRequest) where
  module _ (request : IsRequest decimal q) (state : IsState decimal q.risk_state)
      (policy : IsPolicy decimal p) (confident : IsFraction decimal q.committee_opinion.confidence)
      (agreed : IsFraction decimal q.committee_opinion.consensus) where
    -- The decision's constructor returns when its amounts are good.
    constructed :
        (cs : List RiskLimitCheck) (action : RiskDecisionAction) (v r : ℤ) (code : RiskReasonCode)
        → has_none cs ≡ false
        → (ltb_ℤ v (pos 0) || outside_unit decimal r) ≡ false
        → (is_reject action && (not (eqb_ℤ v (pos 0)) || not (eqb_ℤ r (pos 0)))) ≡ false
        → (d : RiskDecision) × (validate_risk_decision decimal
              (decision decimal p q cs action v r code)
            ≡ ok d)
    constructed cs action v r code some_check good zero = (
      _,
      validate_risk_decision_returns decimal (decision decimal p q cs action v r code)
          state.symbol_good request.aware good confident agreed some_check zero policy.version_good,
    )

    rejection_returns :
        (cs failed : List RiskLimitCheck)
        → has_none cs ≡ false
        → has_none failed ≡ false
        → (d : RiskDecision) × (rejection decimal p q cs failed ≡ ok d)
    unfolding rejection
    rejection_returns cs failed some_check some_failed =
        let primary = primary_returns failed some_failed in
        let made =
          constructed cs reject (pos 0) (pos 0) primary.0 some_check (zero_good decimal) refl in
        (made.0, rw primary.1 made.1)

    modification_returns :
        (cs reductions : List RiskLimitCheck) (candidate : ℤ)
        → has_none cs ≡ false
        → has_none reductions ≡ false
        → leb_ℤ candidate (pos 0) ≡ false
        → (d : RiskDecision) × (modification decimal p q cs reductions candidate ≡ ok d)
    unfolding modification
    modification_returns cs reductions candidate some_check some_limit above =
        let first = first_returns reductions some_limit in
        let made =
          constructed cs modify candidate (approved_risk decimal p q) first.0 some_check
            (amounts_good decimal candidate (approved_risk decimal p q) (above_good candidate above)
              (approved_risk-IsFraction decimal q.requested_risk_fraction
                p.maximum_requested_risk_fraction request.risk_fraction policy.maximum_risk))
            refl in
        (made.0, rw first.1 made.1)

    approval_returns :
        (cs : List RiskLimitCheck)
        → has_none cs ≡ false
        → (d : RiskDecision) × (approval decimal p q cs ≡ ok d)
    unfolding approval
    approval_returns cs some_check =
        constructed cs approve q.requested_notional q.requested_risk_fraction approved some_check
          (amounts_good decimal q.requested_notional q.requested_risk_fraction
            (nonnegative q.requested_notional request.notional_nonnegative) request.risk_fraction)
          refl

    choose_returns :
        (cs : List RiskLimitCheck) (candidate : ℤ)
        → has_none cs ≡ false
        → (All Passed cs → leb_ℤ candidate (pos 0) ≡ false)
        → (d : RiskDecision) × (choose decimal p q cs candidate ≡ ok d)
    unfolding choose
    choose_returns cs candidate some_check above =
        let reductions = filter reduces cs in
        elim (Bool-cases (has_none (filter blocks cs))) [
          | inr block ↦ rw block (rejection_returns cs (filter blocks cs) some_check block)
          | inl no_block ↦ elim (Bool-cases (has_none reductions)) [
            | inl no_limit ↦
                let above_zero = above (
                  none_failed-Passed cs (has_none→[] (filter blocks cs) no_block)
                    (has_none→[] reductions no_limit)) in
                rw (no_block, no_limit, above_zero) (approval_returns cs some_check)
            | inr limited ↦
                elim (Bool-cases (not p.allow_modification || leb_ℤ candidate (pos 0))) [
                  | inl refused ↦
                      rw (no_block, limited, refused)
                        (rejection_returns cs reductions some_check limited)
                  | inr allowed ↦
                      rw (no_block, limited, allowed)
                        (modification_returns cs reductions candidate some_check limited (
                          right_false (not p.allow_modification) (leb_ℤ candidate (pos 0)) allowed))
                ]
          ]
        ]

  Branch-Passed :
      (cs : List RiskLimitCheck) (candidate : ℤ) (d : RiskDecision)
      → Branch decimal p q cs candidate d
      → d.action ≡ approve
      → All Passed cs
  Branch-Passed cs candidate d (rejected a n r) e = cc
  Branch-Passed cs candidate d (modified a n r above) e = cc
  Branch-Passed cs candidate d (full a n r passed) e = passed

  -- With every check passed the whole request is approved.
  Passed-approve :
      (cs : List RiskLimitCheck) (candidate : ℤ) {d : RiskDecision}
      → All Passed cs
      → leb_ℤ candidate (pos 0) ≡ false
      → choose decimal p q cs candidate ≡ ok d
      → d.action ≡ approve
  unfolding choose approval
  Passed-approve cs candidate {d = d} passed above h =
      let approval_made : approval decimal p q cs ≡ ok d =
        rw (Passed-none_block cs passed, Passed-none_limit cs passed, above) at h in
      (validate_risk_decision-SameDecision decimal
        (decision decimal p q cs approve q.requested_notional q.requested_risk_fraction approved)
        approval_made).same_action

  full_iff :
      (cs : List RiskLimitCheck) (candidate : ℤ) {d : RiskDecision}
      → (All Passed cs → leb_ℤ candidate (pos 0) ≡ false)
      → choose decimal p q cs candidate ≡ ok d
      → (d.action ≡ approve) ↔ All Passed cs
  full_iff cs candidate {d = d} above h = (
    λ full_action.
        Branch-Passed cs candidate d (choose-Branch decimal p q cs candidate h) full_action,
    λ passed. Passed-approve cs candidate passed (above passed) h,
  )

checks_some :
    (decimal : Arithmetic) (p : RiskPolicy) (q : RiskEvaluationRequest)
    → has_none (checks_of decimal p q) ≡ false
unfolding checks_of
checks_some decimal p q = refl

-- On inputs that their constructors let through, where the opinion's confidence and consensus are
-- fractions, the committee returns a decision: the list of failed checks is never empty where its
-- first item is read, and the decision's own constructor accepts what the committee puts together.
pub evaluate_returns :
    (decimal : Arithmetic) (p₀ p : RiskPolicy) (s₀ : RiskState) (q₀ q : RiskEvaluationRequest)
    → validate_policy decimal p₀ ≡ ok p
    → validate_state decimal s₀ ≡ ok q.risk_state
    → validate_risk_request decimal q₀ ≡ ok q
    → IsFraction decimal q.committee_opinion.confidence
    → IsFraction decimal q.committee_opinion.consensus
    → (d : RiskDecision) × (evaluate decimal p q ≡ ok d)
unfolding evaluate
evaluate_returns decimal p₀ p s₀ q₀ q hp hs hq confident agreed =
    choose_returns decimal p q (validate_risk_request-IsRequest decimal q₀ hq)
      (validate_state-IsState decimal s₀ hs) (validate_policy-IsPolicy decimal p₀ hp) confident
      agreed (checks_of decimal p q) (candidate_of decimal p q) (checks_some decimal p q)
      (candidate_positive decimal p q)

-- A decision approves the request in full exactly when every one of the checks passed.
pub evaluate-approve_iff :
    (decimal : Arithmetic) (p : RiskPolicy) (q : RiskEvaluationRequest) {d : RiskDecision}
    → evaluate decimal p q ≡ ok d
    → (d.action ≡ approve) ↔ All Passed (checks_of decimal p q)
unfolding evaluate
evaluate-approve_iff decimal p q h =
    full_iff decimal p q (checks_of decimal p q) (candidate_of decimal p q)
      (candidate_positive decimal p q) h
