-- ===== src/OrderCompliance/Approved.antt =====
-- About the proposals that app/order_compliance/validator.py approves.
use webull_aitrader.RiskAdvice.{LegacyRiskDecision}
use webull_aitrader.Shared.{
  none_left, ◌≡◌, ◌≢◌, no_offset, ok, timedelta_overflows, ◌↔◌, ◌∙◌, refl, ap, ℕ, ◌<◌, Bool, true,
  false, not, ◌||◌, ◌&&◌, ◌⊎◌, inl, inr, Option, none, some, List, [], ◌∷◌, any, All, is_some, ltb,
  ℤ, pos, ◌≤ℤ◌, ◌<ℤ◌, ltb_ℤ, leb_ℤ, eqb_ℤ, eqb_ℤ_iff, Bool-cases, Datetime, lacks_tzinfo, arith,
}
use webull_aitrader.Compliance.Sell.{SellComplianceDecision}
use webull_aitrader.OrderCompliance.{
  MarketStatus, open_market, SymbolStatus, tradable, ProposedOrder, MarketComplianceState,
  ComplianceLimits, CheckName, closed, halted_market, circuit_breaker, unknown_market, not_tradable,
  halted_symbol, unknown_symbol,
}
use webull_aitrader.OrderCompliance.Market.{
  MarketFailure, naive_timestamps, stale_status, symbol_status_is, market_status_is,
  outside_regular, extended_disabled, outside_extended, market_order_in_extended, market_is_open,
  is_tradable, when, validate_market_and_session, KillSwitchState, kill_switch_failure,
}
use webull_aitrader.OrderCompliance.Clocks.{
  AgeWithin, InSession, Known, session_times, none_lacks_iff, unmixed, out_of_age_lem, session_lem,
}
use webull_aitrader.OrderCompliance.Validator.{
  risk_approves, approved_sale, labelled, is_freshness, is_symbol, is_status, is_session,
  names_where,
}

pub none_left-[] {ℓ} : {A : Type ℓ} (xs : List A) → (none_left xs ≡ true) ↔ (xs ≡ [])
none_left-[] [] = (λ h. refl, λ h. refl)
none_left-[] (x ∷ xs) = (λ h. cc, λ h. cc)

-- No check failed exactly when all of them hold.
pub none_failed_iff :
    (cs : List (CheckName × Bool))
    → (none_left (names_where not cs) ≡ true) ↔ All (λ c. c.1 ≡ true) cs
none_failed_iff [] = (λ h. tt, λ h. refl)
none_failed_iff (c ∷ cs) = elim (Bool-cases c.1) [
  | inl holds ↦ rw holds (λ h. (refl, (none_failed_iff cs).0 h), λ h. (none_failed_iff cs).1 h.1)
  | inr fails ↦ rw fails (λ h. cc, λ h. cc)
]

-- Every failure has one of the four labels.
pub labels_cover :
    (fs : List MarketFailure)
    → (none_left (labelled is_freshness fs) ≡ true)
    → (none_left (labelled is_symbol fs) ≡ true)
    → (none_left (labelled is_status fs) ≡ true)
    → (none_left (labelled is_session fs) ≡ true)
    → fs ≡ []
labels_cover [] a b c d = refl
labels_cover (naive_timestamps ∷ fs) a b c d = cc
labels_cover (stale_status ∷ fs) a b c d = cc
labels_cover (outside_regular ∷ fs) a b c d = cc
labels_cover (extended_disabled ∷ fs) a b c d = cc
labels_cover (outside_extended ∷ fs) a b c d = cc
labels_cover (market_order_in_extended ∷ fs) a b c d = cc
labels_cover (symbol_status_is s ∷ fs) a b c d = cc
labels_cover (market_status_is s ∷ fs) a b c d = cc

when-[] :
    (b : Bool) (f : MarketFailure) (rest : List MarketFailure)
    → (when b f rest ≡ []) ↔ ((b ≡ false) × (rest ≡ []))
when-[] true f rest = (λ h. cc, λ h. cc)
when-[] false f rest = (λ h. (refl, h), λ h. h.1)

tradable_iff : (s : SymbolStatus) → (not (is_tradable s) ≡ false) ↔ (s ≡ tradable)
tradable_iff tradable = (λ h. refl, λ h. refl)
tradable_iff not_tradable = (λ h. cc, λ h. cc)
tradable_iff halted_symbol = (λ h. cc, λ h. cc)
tradable_iff unknown_symbol = (λ h. cc, λ h. cc)

open_iff : (s : MarketStatus) → (not (market_is_open s) ≡ false) ↔ (s ≡ open_market)
open_iff open_market = (λ h. refl, λ h. refl)
open_iff closed = (λ h. cc, λ h. cc)
open_iff halted_market = (λ h. cc, λ h. cc)
open_iff circuit_breaker = (λ h. cc, λ h. cc)
open_iff unknown_market = (λ h. cc, λ h. cc)

both_ways : {P : Type 0} (b : Bool) → b ≡ true → b ≡ false → P
both_ways b h k = cc

pub off_iff :
    (k : KillSwitchState) → (not (is_some (kill_switch_failure k)) ≡ true) ↔ (k.enabled ≡ false)
unfolding kill_switch_failure
off_iff k = ground arith

pub risk_iff :
    (risk : Option LegacyRiskDecision)
    → (risk_approves risk ≡ true)
      ↔ ((d : LegacyRiskDecision) × (risk ≡ some d) × (d.approved ≡ true))
risk_iff none = (λ h. cc, λ h. ap risk_approves h.1 ∙ h.2)
risk_iff (some d) = (λ h. (d, refl, h), λ h. ap risk_approves h.1 ∙ h.2)

sale_parts :
    (a : Bool) (r quantity : ℤ) → ((a && eqb_ℤ r quantity) ≡ true) ↔ ((a ≡ true) × (r ≡ quantity))
sale_parts a r quantity = ground (arith, eqb_ℤ_iff r quantity)

-- The approval of a sale that there is.
approved_sale_of :
    (gfv : Option SellComplianceDecision) (quantity : ℤ) (d : SellComplianceDecision)
    → gfv ≡ some d
    → d.approved ≡ true
    → d.requested_quantity ≡ quantity
    → approved_sale gfv quantity ≡ true
approved_sale_of gfv quantity d there good same =
    ap (λ x. approved_sale x quantity) there
    ∙ (sale_parts d.approved d.requested_quantity quantity).1 (good, same)

sale_back :
    (gfv : Option SellComplianceDecision) (quantity : ℤ)
    → ((true ≡ false)
        ⊎ ((d : SellComplianceDecision) × (gfv ≡ some d)
            × (d.approved ≡ true)
            × (d.requested_quantity ≡ quantity)))
    → approved_sale gfv quantity ≡ true
sale_back gfv quantity (inl h) = cc
sale_back gfv quantity (inr d) = approved_sale_of gfv quantity d.0 d.1 d.2 d.3

pub sale_iff :
    (b : Bool) (gfv : Option SellComplianceDecision) (quantity : ℤ)
    → ((not b || approved_sale gfv quantity) ≡ true) ↔ (
        (b ≡ false)
        ⊎ ((d : SellComplianceDecision) × (gfv ≡ some d)
            × (d.approved ≡ true)
            × (d.requested_quantity ≡ quantity)))
sale_iff false gfv quantity = (λ h. inl refl, λ h. refl)
sale_iff true none quantity = (λ h. cc, sale_back none quantity)
sale_iff true (some d) quantity = (
  λ h.
      let parts = (sale_parts d.approved d.requested_quantity quantity).0 h in
      inr (d, refl, parts.0, parts.1),
  sale_back (some d) quantity,
)

pub within_iff :
    (b : Bool) (quantity v : ℤ)
    → b ≡ true
    → ((ltb_ℤ (pos 0) quantity && leb_ℤ quantity v) ≡ true)
      ↔ ((pos 0 <ℤ quantity) × (quantity ≤ℤ v))
within_iff b quantity v h = ground arith

pub held_iff :
    (b : Bool) (quantity v : ℤ)
    → ((not b || (ltb_ℤ (pos 0) quantity && leb_ℤ quantity v)) ≡ true)
      ↔ ((b ≡ false) ⊎ ((pos 0 <ℤ quantity) × (quantity ≤ℤ v)))
held_iff b quantity v = ground arith

pub flip : (b : Bool) → (not b ≡ true) ↔ (b ≡ false)
flip b = ground arith

pub less_iff : (a b : ℕ) → (ltb a b ≡ true) ↔ (a < b)
less_iff a b = ground arith

-- What the market and its session ask at a time.
pub record MarketClear (o : ProposedOrder) (m : MarketComplianceState) (l : ComplianceLimits)
    (now : Datetime) : Type 0 where
  pub times_known : All Known (session_times m now)
  pub status_fresh : AgeWithin now m.status_as_of l.maximum_market_status_age_seconds
  pub symbol_tradable : m.symbol_status ≡ tradable
  pub market_open : m.market_status ≡ open_market
  pub in_session : InSession o.requested_session o m l now

listed_iff :
    (late : Bool) (symbol : SymbolStatus) (market : MarketStatus) (session : List MarketFailure)
    → (when late stale_status (
          when
            (not (is_tradable symbol))
            (symbol_status_is symbol)
            (when (not (market_is_open market)) (market_status_is market) session))
        ≡ [])
      ↔ ((late ≡ false) × (symbol ≡ tradable) × (market ≡ open_market) × (session ≡ []))
listed_iff late symbol market session =
    let last = when-[] (not (market_is_open market)) (market_status_is market) session in
    let rest = when (not (market_is_open market)) (market_status_is market) session in
    let middle = when-[] (not (is_tradable symbol)) (symbol_status_is symbol) rest in
    let first =
      when-[] late stale_status (when (not (is_tradable symbol)) (symbol_status_is symbol) rest) in
    (
      λ h.
          let a = first.0 h in
          let b = middle.0 a.1 in
          let c = last.0 b.1 in (a.0, (tradable_iff symbol).0 b.0, (open_iff market).0 c.0, c.1),
      λ h.
          let c = last.1 ((open_iff market).1 h.2, h.3) in
          first.1 (h.0, middle.1 ((tradable_iff symbol).1 h.1, c)),
    )

-- With times that can be compared, the market's checks return, and fail nothing exactly when the market
-- is clear.
pub market_lem :
    (o : ProposedOrder) (m : MarketComplianceState) (l : ComplianceLimits) (now : Datetime)
    → All (λ t. t.zone ≢ no_offset) (session_times m now)
    → timedelta_overflows l.maximum_market_status_age_seconds ≡ false
    → (fs : List MarketFailure) × (validate_market_and_session o m l now ≡ ok fs)
      × ((fs ≡ []) ↔ MarketClear o m l now)
unfolding validate_market_and_session
market_lem o m l now offsets fits =
    let times = none_lacks_iff (session_times m now) in
    elim (Bool-cases (any (λ t. lacks_tzinfo t.zone) (session_times m now))) [
      | inl lacking ↦ (
        naive_timestamps ∷ [],
        rw lacking refl,
        (λ h. cc, λ c. both_ways _ lacking (times.1 c.times_known)),
      )
      | inr none_lacks ↦
          let known = times.0 none_lacks in
          let (_, (_, (_, (_, (o5, (o6, _)))))) = offsets in
          let (_, (_, (_, (_, (k5, (k6, _)))))) = known in
          let late =
            out_of_age_lem now m.status_as_of l.maximum_market_status_age_seconds
              (unmixed _ _ o6 o5 k6 k5) fits in
          let session = session_lem o m l now o.requested_session offsets known in
          let listed = listed_iff late.0 m.symbol_status m.market_status session.0 in
          (
            _,
            rw (none_lacks, late.1, session.1) refl,
            (
              λ h.
                  let c = listed.0 h in
                  record {
                    times_known = known;
                    status_fresh = late.2.0 c.0;
                    symbol_tradable = c.1;
                    market_open = c.2;
                    in_session = session.2.0 c.3;
                  },
              λ c. listed.1 (
                late.2.1 c.status_fresh,
                c.symbol_tradable,
                c.market_open,
                session.2.1 c.in_session,
              ),
            ),
          )
    ]
