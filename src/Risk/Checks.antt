-- ===== src/Risk/Checks.antt =====
-- About the checks of app/risk/committee.py, the candidate amount, and what the constructors of
-- app/risk/models.py and policies.py let through.
use webull_aitrader.Shared.{
  ◌≡◌, refl, Bool, true, false, not, ◌||◌, List, [], ◌∷◌, filter, All, ℤ, pos, ◌≤ℤ◌, ◌<ℤ◌, leb_ℤ,
  ltb_ℤ, min_ℤ, Arithmetic, arith,
}
use webull_aitrader.Risk.{is_neutral, RiskPolicy, RiskEvaluationRequest, RiskLimitCheck}
use webull_aitrader.Risk.Committee.{
  blocks, reduces, checks_of, candidate_of, risk_notional, symbol_capacity, gross_capacity,
}

abbrev pub Passed : RiskLimitCheck → Type 0
Passed c = c.passed ≡ true

pub none_failed-Passed :
    (cs : List RiskLimitCheck) → filter blocks cs ≡ [] → filter reduces cs ≡ [] → All Passed cs
none_failed-Passed [] b l = tt
none_failed-Passed (c ∷ cs) b l = ground (arith, none_failed-Passed cs)

pub Passed-none_block : (cs : List RiskLimitCheck) → All Passed cs → filter blocks cs ≡ []
Passed-none_block [] h = refl
Passed-none_block (c ∷ cs) h = rw (h.0, Passed-none_block cs h.1)

pub Passed-none_limit : (cs : List RiskLimitCheck) → All Passed cs → filter reduces cs ≡ []
Passed-none_limit [] h = refl
Passed-none_limit (c ∷ cs) h = rw (h.0, Passed-none_limit cs h.1)

leb_ℤ→≤ℤ : (a b : ℤ) → leb_ℤ a b ≡ true → a ≤ℤ b
leb_ℤ→≤ℤ a b h = ground arith

-- Below the lesser of two is below both.
below_min : (a b m : ℤ) → m ≤ℤ min_ℤ a b → (m ≤ℤ a) × (m ≤ℤ b)
below_min a b m h = ground arith

min_positive : (a b : ℤ) → pos 0 <ℤ a → pos 0 <ℤ b → pos 0 <ℤ min_ℤ a b
min_positive a b h k = ground arith

below : (a b : ℤ) → pos 0 <ℤ a → a ≤ℤ b → pos 0 <ℤ b
below a b h k = omega arith

below_four :
    (a b c d e m : ℤ)
    → m ≤ℤ min_ℤ (min_ℤ (min_ℤ (min_ℤ a b) c) d) e
    → (m ≤ℤ a) × (m ≤ℤ b) × (m ≤ℤ c) × (m ≤ℤ d)
below_four a b c d e m h =
    let four = below_min (min_ℤ (min_ℤ (min_ℤ a b) c) d) e m h in
    let three = below_min (min_ℤ (min_ℤ a b) c) d m four.0 in
    let two = below_min (min_ℤ a b) c m three.0 in
    let one = below_min a b m two.0 in (one.0, one.1, two.1, three.1)

four_positive :
    (a b c d : ℤ)
    → pos 0 <ℤ a
    → a ≤ℤ b
    → a ≤ℤ c
    → a ≤ℤ d
    → pos 0 <ℤ min_ℤ (min_ℤ (min_ℤ (min_ℤ a b) c) d) a
four_positive a b c d h hb hc hd =
    let two = min_positive a b h (below a b h hb) in
    let three = min_positive (min_ℤ a b) c two (below a c h hc) in
    let four = min_positive (min_ℤ (min_ℤ a b) c) d three (below a d h hd) in
    min_positive (min_ℤ (min_ℤ (min_ℤ a b) c) d) a four h

not_above : (a b : ℤ) → a ≤ℤ b → ltb_ℤ b a ≡ false
not_above a b h = ground arith

positive→leb_ℤ : (a : ℤ) → pos 0 <ℤ a → leb_ℤ a (pos 0) ≡ false
positive→leb_ℤ a h = ground arith

directional_positive :
    (n : Bool) (a : ℤ) → not n ≡ true → (n || ltb_ℤ (pos 0) a) ≡ true → pos 0 <ℤ a
directional_positive n a h k = ground arith

module _ (decimal : Arithmetic) (p : RiskPolicy) (q : RiskEvaluationRequest) where
  pub candidate_bounds :
      (candidate_of decimal p q ≤ℤ q.requested_notional)
      × (candidate_of decimal p q ≤ℤ q.risk_state.available_buying_power)
      × (candidate_of decimal p q ≤ℤ symbol_capacity decimal p q.risk_state)
      × (candidate_of decimal p q ≤ℤ gross_capacity decimal p q.risk_state)
  unfolding candidate_of
  candidate_bounds =
      below_four q.requested_notional q.risk_state.available_buying_power
        (symbol_capacity decimal p q.risk_state) (gross_capacity decimal p q.risk_state)
        (risk_notional decimal p q) (candidate_of decimal p q) (omega arith)

  -- What some of the checks say when they pass.
  pub facts_of :
      All Passed (checks_of decimal p q)
      → (pos 0 <ℤ q.requested_notional)
        × (q.requested_risk_fraction ≤ℤ p.maximum_requested_risk_fraction)
        × (q.requested_notional ≤ℤ q.risk_state.available_buying_power)
        × (q.requested_notional ≤ℤ symbol_capacity decimal p q.risk_state)
        × (q.requested_notional ≤ℤ gross_capacity decimal p q.risk_state)
  unfolding checks_of
  facts_of h =
      let fifth = h.1.1.1.1 in
      let last = fifth.1.1.1.1.1 in
      let r = q.requested_notional in
      let s = q.risk_state in
      (
        directional_positive (is_neutral q.committee_opinion.action) r h.0 h.1.0,
        leb_ℤ→≤ℤ q.requested_risk_fraction p.maximum_requested_risk_fraction fifth.0,
        leb_ℤ→≤ℤ r s.available_buying_power last.0,
        leb_ℤ→≤ℤ r (symbol_capacity decimal p s) last.1.0,
        leb_ℤ→≤ℤ r (gross_capacity decimal p s) last.1.1.0,
      )

  risk_notional-unlimited :
      q.requested_risk_fraction ≤ℤ p.maximum_requested_risk_fraction
      → risk_notional decimal p q ≡ q.requested_notional
  unfolding risk_notional
  risk_notional-unlimited h =
      rw (not_above q.requested_risk_fraction p.maximum_requested_risk_fraction h) refl

  pub candidate_positive :
      All Passed (checks_of decimal p q) → leb_ℤ (candidate_of decimal p q) (pos 0) ≡ false
  unfolding candidate_of
  candidate_positive h =
      let facts = facts_of h in
      rw (risk_notional-unlimited facts.1) (
        positive→leb_ℤ
          (min_ℤ
            (min_ℤ
              (min_ℤ (min_ℤ q.requested_notional q.risk_state.available_buying_power)
                (symbol_capacity decimal p q.risk_state))
              (gross_capacity decimal p q.risk_state))
            q.requested_notional)
          (four_positive q.requested_notional q.risk_state.available_buying_power
            (symbol_capacity decimal p q.risk_state) (gross_capacity decimal p q.risk_state) facts.0
            facts.2 facts.3 facts.4))
