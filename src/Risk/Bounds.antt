-- ===== src/Risk/Bounds.antt =====
-- About the amounts that `RiskCommittee.evaluate` in app/risk/committee.py authorizes.
use webull_aitrader.Shared.{
  ◌≡◌, refl, Bool, true, false, not, ◌||◌, ◌&&◌, ◌⊎◌, inl, inr, List, [], ◌∷◌, filter, All, ℤ, pos,
  ◌≤ℤ◌, leb_ℤ, min_ℤ, max_ℤ, ◌-ℤ◌, ok, >>=-eq-ok, Arithmetic, arith, if◌then◌else◌,
}
use webull_aitrader.Risk.{
  approve, modify, reject, approved, RiskPolicy, RiskState, RiskEvaluationRequest, RiskLimitCheck,
  RiskDecision, has_none, validate_state, validate_policy, validate_risk_request,
}
use webull_aitrader.Risk.Committee.{
  blocks, reduces, checks_of, candidate_of, symbol_capacity, gross_capacity, approved_risk,
  decision, primary_of, first_code, rejection, modification, approval, choose, evaluate,
}
use webull_aitrader.Risk.Checks.{Passed, none_failed-Passed, candidate_bounds, facts_of}
use webull_aitrader.Risk.Constructed.{
  IsRequest, IsState, IsPolicy, validate_risk_request-IsRequest, validate_state-IsState,
  validate_policy-IsPolicy, validate_risk_decision-SameDecision,
}

pub has_none→[] {ℓ} : {A : Type ℓ} (xs : List A) → has_none xs ≡ true → xs ≡ []
has_none→[] [] h = refl
has_none→[] (x ∷ xs) h = cc

max_nonnegative : (a : ℤ) → pos 0 ≤ℤ max_ℤ (pos 0) a
max_nonnegative a = ground arith

not_leb_ℤ : (a : ℤ) → leb_ℤ a (pos 0) ≡ false → pos 0 ≤ℤ a
not_leb_ℤ a h = ground arith

self : (a : ℤ) → a ≤ℤ a
self a = omega arith

min_below : (a b : ℤ) → (min_ℤ a b ≤ℤ a) × (min_ℤ a b ≤ℤ b)
min_below a b = ground arith

module _ (decimal : Arithmetic) (p : RiskPolicy) (q : RiskEvaluationRequest) where
  -- Which of the three branches made a decision, and what had held.
  pub data Branch (cs : List RiskLimitCheck) (candidate : ℤ) (d : RiskDecision) : Type 0 where
    rejected :
        d.action ≡ reject
        → d.approved_notional ≡ pos 0
        → d.approved_risk_fraction ≡ pos 0
        → Branch cs candidate d
    modified :
        d.action ≡ modify
        → d.approved_notional ≡ candidate
        → d.approved_risk_fraction ≡ approved_risk decimal p q
        → leb_ℤ candidate (pos 0) ≡ false
        → Branch cs candidate d
    full :
        d.action ≡ approve
        → d.approved_notional ≡ q.requested_notional
        → d.approved_risk_fraction ≡ q.requested_risk_fraction
        → All Passed cs
        → Branch cs candidate d

  rejection-Branch :
      (cs failed : List RiskLimitCheck) (candidate : ℤ) {d : RiskDecision}
      → rejection decimal p q cs failed ≡ ok d
      → Branch cs candidate d
  unfolding rejection
  rejection-Branch cs failed candidate h =
      let primary = >>=-eq-ok (primary_of failed) _ h in
      let same =
        validate_risk_decision-SameDecision decimal
          (decision decimal p q cs reject (pos 0) (pos 0) primary.0) primary.2 in
      rejected same.same_action same.same_notional same.same_risk

  modification-Branch :
      (cs reductions : List RiskLimitCheck) (candidate : ℤ) {d : RiskDecision}
      → leb_ℤ candidate (pos 0) ≡ false
      → modification decimal p q cs reductions candidate ≡ ok d
      → Branch cs candidate d
  unfolding modification
  modification-Branch cs reductions candidate positive h =
      let primary = >>=-eq-ok (first_code reductions) _ h in
      let same =
        validate_risk_decision-SameDecision decimal
          (decision decimal p q cs modify candidate (approved_risk decimal p q) primary.0)
          primary.2 in
      modified same.same_action same.same_notional same.same_risk positive

  approval-Branch :
      (cs : List RiskLimitCheck) (candidate : ℤ) {d : RiskDecision}
      → All Passed cs
      → approval decimal p q cs ≡ ok d
      → Branch cs candidate d
  unfolding approval
  approval-Branch cs candidate passed h =
      let same =
        validate_risk_decision-SameDecision decimal
          (decision decimal p q cs approve q.requested_notional q.requested_risk_fraction approved)
          h in
      full same.same_action same.same_notional same.same_risk passed

  -- The choice among the branches, on the three tests of the source.
  choice :
      (b l z a : Bool) {A : Type 0} (x y w : A) {v : A}
      → (if not b || (not l && not a) || z then x else (if not l then y else w)) ≡ v
      → (x ≡ v) ⊎ ((z ≡ false) × (y ≡ v)) ⊎ ((b ≡ true) × (l ≡ true) × (w ≡ v))
  choice b l z a x y w h = ground arith

  pub choose-Branch :
      (cs : List RiskLimitCheck) (candidate : ℤ) {d : RiskDecision}
      → choose decimal p q cs candidate ≡ ok d
      → Branch cs candidate d
  unfolding choose
  choose-Branch cs candidate h =
      let blockers = filter blocks cs in
      let reductions = filter reduces cs in
      let failed = if has_none blockers then reductions else blockers in
      elim (choice (has_none blockers) (has_none reductions) (leb_ℤ candidate (pos 0))
        p.allow_modification (rejection decimal p q cs failed)
        (modification decimal p q cs reductions candidate) (approval decimal p q cs) h) [
          | inl r ↦ rejection-Branch cs failed candidate r
          | inr (inl m) ↦ modification-Branch cs reductions candidate m.0 m.1
          | inr (inr f) ↦
              approval-Branch cs candidate
                (none_failed-Passed cs (has_none→[] blockers f.0) (has_none→[] reductions f.1)) f.2
        ]

  capacities_nonnegative :
      (pos 0 ≤ℤ symbol_capacity decimal p q.risk_state)
      × (pos 0 ≤ℤ gross_capacity decimal p q.risk_state)
  unfolding symbol_capacity gross_capacity
  capacities_nonnegative =
      let s = q.risk_state in
      (
        max_nonnegative (
            decimal.times s.account_equity p.maximum_symbol_exposure_fraction
            -ℤ s.current_symbol_exposure),
        max_nonnegative (
            decimal.times s.account_equity p.maximum_gross_exposure_fraction
            -ℤ s.total_gross_exposure),
      )

  -- What a decision may authorize.
  pub record WithinLimits (d : RiskDecision) : Type 0 where
    pub nonnegative : pos 0 ≤ℤ d.approved_notional
    pub within_request : d.approved_notional ≤ℤ q.requested_notional
    pub within_power : d.approved_notional ≤ℤ q.risk_state.available_buying_power
    pub within_symbol : d.approved_notional ≤ℤ symbol_capacity decimal p q.risk_state
    pub within_gross : d.approved_notional ≤ℤ gross_capacity decimal p q.risk_state
    pub risk_within_request : d.approved_risk_fraction ≤ℤ q.requested_risk_fraction
    pub risk_within_policy : d.approved_risk_fraction ≤ℤ p.maximum_requested_risk_fraction

  Branch-WithinLimits :
      (d : RiskDecision)
      → IsRequest decimal q
      → IsState decimal q.risk_state
      → IsPolicy decimal p
      → Branch (checks_of decimal p q) (candidate_of decimal p q) d
      → WithinLimits d
  Branch-WithinLimits d request state policy (rejected a n r) = record {
    nonnegative = rw n (self (pos 0));
    within_request = rw n request.notional_nonnegative;
    within_power = rw n state.power_nonnegative;
    within_symbol = rw n capacities_nonnegative.0;
    within_gross = rw n capacities_nonnegative.1;
    risk_within_request = rw r request.risk_fraction.0;
    risk_within_policy = rw r policy.maximum_risk.0;
  }
  Branch-WithinLimits d request state policy (modified a n r positive) = record {
    nonnegative = rw n (not_leb_ℤ (candidate_of decimal p q) positive);
    within_request = rw n (candidate_bounds decimal p q).0;
    within_power = rw n (candidate_bounds decimal p q).1;
    within_symbol = rw n (candidate_bounds decimal p q).2;
    within_gross = rw n (candidate_bounds decimal p q).3;
    risk_within_request =
        rw r (min_below q.requested_risk_fraction p.maximum_requested_risk_fraction).0;
    risk_within_policy =
        rw r (min_below q.requested_risk_fraction p.maximum_requested_risk_fraction).1;
  }
  Branch-WithinLimits d request state policy (full a n r passed) = record {
    nonnegative = rw n request.notional_nonnegative;
    within_request = rw n (self q.requested_notional);
    within_power = rw n (facts_of decimal p q passed).2;
    within_symbol = rw n (facts_of decimal p q passed).3;
    within_gross = rw n (facts_of decimal p q passed).4;
    risk_within_request = rw r (self q.requested_risk_fraction);
    risk_within_policy = rw r (facts_of decimal p q passed).1;
  }

-- When the committee returns a decision on inputs that their constructors let through, the amount
-- it approves is not negative and is at most the requested amount, the buying power, and what is
-- left under the symbol's and the gross exposure limits; the approved risk is at most the requested
-- risk and the policy's maximum. However the Decimal products and quotients round, this holds.
pub evaluate-WithinLimits :
    (decimal : Arithmetic) (p₀ p : RiskPolicy) (s₀ : RiskState) (q₀ q : RiskEvaluationRequest)
    {d : RiskDecision}
    → validate_policy decimal p₀ ≡ ok p
    → validate_state decimal s₀ ≡ ok q.risk_state
    → validate_risk_request decimal q₀ ≡ ok q
    → evaluate decimal p q ≡ ok d
    → WithinLimits decimal p q d
unfolding evaluate
evaluate-WithinLimits decimal p₀ p s₀ q₀ q {d} hp hs hq h =
    Branch-WithinLimits decimal p q d (validate_risk_request-IsRequest decimal q₀ hq)
      (validate_state-IsState decimal s₀ hs) (validate_policy-IsPolicy decimal p₀ hp)
      (choose-Branch decimal p q (checks_of decimal p q) (candidate_of decimal p q) h)
