-- ===== src/OrderCompliance/Clocks.antt =====
-- About the timestamps that app/order_compliance/ subtracts and compares.
use webull_aitrader.Shared.{
  ◌≡◌, ◌≢◌, ◌↔◌, refl, ℕ, ◌≤◌, ◌-◌, ◌*◌, Bool, true, false, not, ◌||◌, ◌&&◌, ◌⊎◌, inl, inr, List,
  [], ◌∷◌, any, All, ltb, ℤ, pos, pos_part, ◌≤ℤ◌, ltb_ℤ, Bool-cases, Zone, naive, no_offset, fixed,
  Datetime, lacks_tzinfo, is_mixed, timedelta_overflows, ok, arith,
}
use webull_aitrader.OrderCompliance.{
  TradingSession, regular, extended_hours, ProposedOrder, AccountComplianceState,
  MarketComplianceState, ComplianceLimits,
}
use webull_aitrader.OrderCompliance.Prices.{is_market}
use webull_aitrader.OrderCompliance.Market.{
  MarketFailure, outside_regular, extended_disabled, outside_extended, market_order_in_extended,
  when, outside, out_of_age, session_failures,
}
use webull_aitrader.OrderCompliance.Validator.{fresh_order_state}

-- A time that is no more than so many seconds after another.
abbrev pub AgeWithin : Datetime → Datetime → ℤ → Type 0
AgeWithin now since maximum =
    (since.instant ≤ now.instant)
    × (pos 0 ≤ℤ maximum)
    × (now.instant - since.instant ≤ pos_part maximum * 1000000)

abbrev pub Between : Datetime → Datetime → Datetime → Type 0
Between start finish now = (start.instant ≤ now.instant) × (now.instant ≤ finish.instant)

-- What a session asks of the time and of the limits.
abbrev pub InSession :
    TradingSession → ProposedOrder → MarketComplianceState → ComplianceLimits → Datetime → Type 0
InSession regular o m l now = Between m.regular_session_open m.regular_session_close now
InSession extended_hours o m l now =
    (l.allow_extended_hours ≡ true)
    × Between m.extended_session_open m.extended_session_close now
    × ((is_market o.order_type ≡ false) ⊎ (l.allow_market_orders_in_extended_hours ≡ true))

-- The times of the market and of the evaluation, in the order in which the code lists them.
abbrev pub session_times : MarketComplianceState → Datetime → List Datetime
session_times m now =
    m.regular_session_open ∷ m.regular_session_close ∷ m.extended_session_open
    ∷ m.extended_session_close ∷ m.status_as_of ∷ now ∷ []

abbrev pub Known : Datetime → Type 0
Known t = lacks_tzinfo t.zone ≡ false

pub unmixed :
    (a b : Zone)
    → a ≢ no_offset
    → b ≢ no_offset
    → lacks_tzinfo a ≡ false
    → lacks_tzinfo b ≡ false
    → is_mixed a b ≡ false
unmixed naive b p q h k = cc
unmixed no_offset b p q h k = absurd (p refl)
unmixed fixed naive p q h k = cc
unmixed fixed no_offset p q h k = absurd (q refl)
unmixed fixed fixed p q h k = refl

pub none_lacks_iff :
    (ts : List Datetime) → (any (λ t. lacks_tzinfo t.zone) ts ≡ false) ↔ All Known ts
none_lacks_iff [] = (λ h. tt, λ h. refl)
none_lacks_iff (t ∷ ts) = elim (Bool-cases (lacks_tzinfo t.zone)) [
  | inl lacking ↦ rw lacking (λ h. cc, λ h. cc)
  | inr known ↦ rw known (λ h. (refl, (none_lacks_iff ts).0 h), λ h. (none_lacks_iff ts).1 h.1)
]

age_late :
    (now since : ℕ) (maximum : ℤ)
    → ltb now since ≡ true
    → (true ≡ false)
      ↔ ((since ≤ now) × (pos 0 ≤ℤ maximum) × (now - since ≤ pos_part maximum * 1000000))
age_late now since maximum h = (λ k. cc, λ k. ground (arith, h, k.0))

age_compared :
    (now since : ℕ) (maximum : ℤ)
    → ltb now since ≡ false
    → ((ltb_ℤ maximum (pos 0) || ltb (pos_part maximum * 1000000) (now - since)) ≡ false)
      ↔ ((since ≤ now) × (pos 0 ≤ℤ maximum) × (now - since ≤ pos_part maximum * 1000000))
age_compared now since maximum h = ground (arith, h)

pub out_of_age_lem :
    (now since : Datetime) (maximum : ℤ)
    → is_mixed now.zone since.zone ≡ false
    → timedelta_overflows maximum ≡ false
    → (b : Bool) × (out_of_age now since maximum ≡ ok b)
      × ((b ≡ false) ↔ AgeWithin now since maximum)
unfolding out_of_age
out_of_age_lem now since maximum alike fits = elim (Bool-cases (ltb now.instant since.instant)) [
  | inl early ↦ (true, rw (alike, early) refl, age_late now.instant since.instant maximum early)
  | inr later ↦ (
    ltb_ℤ maximum (pos 0) || ltb (pos_part maximum * 1000000) (now.instant - since.instant),
    rw (alike, later, fits) refl,
    age_compared now.instant since.instant maximum later,
  )
]

early_not : (s n f : ℕ) → ltb n s ≡ true → (true ≡ false) ↔ ((s ≤ n) × (n ≤ f))
early_not s n f h = (λ k. cc, λ k. ground (arith, h, k.0))

not_after : (s n f : ℕ) → ltb n s ≡ false → (ltb f n ≡ false) ↔ ((s ≤ n) × (n ≤ f))
not_after s n f h = ground (arith, h)

pub outside_lem :
    (start finish now : Datetime)
    → is_mixed start.zone now.zone ≡ false
    → is_mixed now.zone finish.zone ≡ false
    → (b : Bool) × (outside start finish now ≡ ok b) × ((b ≡ false) ↔ Between start finish now)
unfolding outside
outside_lem start finish now first second = elim (Bool-cases (ltb now.instant start.instant)) [
  | inl early ↦
      (true, rw (first, early) refl, early_not start.instant now.instant finish.instant early)
  | inr later ↦ (
    ltb finish.instant now.instant,
    rw (first, later, second) refl,
    not_after start.instant now.instant finish.instant later,
  )
]

one_failure : (b : Bool) (f : MarketFailure) → (when b f [] ≡ []) ↔ (b ≡ false)
one_failure true f = (λ h. cc, λ h. cc)
one_failure false f = (λ h. refl, λ h. refl)

three_failures :
    (allowed closed bad permitted : Bool) (f g k : MarketFailure)
    → (when (not allowed) f (when closed g (when (bad && not permitted) k [])) ≡ [])
      ↔ ((allowed ≡ true) × (closed ≡ false) × ((bad ≡ false) ⊎ (permitted ≡ true)))
three_failures false c b p f g k = (λ h. cc, λ h. cc)
three_failures true true b p f g k = (λ h. cc, λ h. cc)
three_failures true false true false f g k =
    (λ h. cc, λ (_, _, e). elim e [ inl x ↦ cc | inr x ↦ cc ])
three_failures true false true true f g k = (λ h. (refl, refl, inr refl), λ h. refl)
three_failures true false false p f g k = (λ h. (refl, refl, inl refl), λ h. refl)

module _ (o : ProposedOrder) (m : MarketComplianceState) (l : ComplianceLimits)
    (now : Datetime) where
  -- The code's outcome of the session, where all times are aware and have an offset.
  pub session_lem :
      (session : TradingSession)
      → All (λ t. t.zone ≢ no_offset) (session_times m now)
      → All Known (session_times m now)
      → (fs : List MarketFailure) × (session_failures session o m l now ≡ ok fs)
        × ((fs ≡ []) ↔ InSession session o m l now)
  unfolding session_failures
  session_lem regular offsets known =
      let (o1, (o2, (_, (_, (_, (o6, _)))))) = offsets in
      let (k1, (k2, (_, (_, (_, (k6, _)))))) = known in
      let hours =
        outside_lem m.regular_session_open m.regular_session_close now (unmixed _ _ o1 o6 k1 k6)
          (unmixed _ _ o6 o2 k6 k2) in
      let clear = one_failure hours.0 outside_regular in
      (
        when hours.0 outside_regular [],
        rw (hours.1) refl,
        (λ h. hours.2.0 (clear.0 h), λ h. clear.1 (hours.2.1 h)),
      )
  session_lem extended_hours offsets known =
      let (_, (_, (o3, (o4, (_, (o6, _)))))) = offsets in
      let (_, (_, (k3, (k4, (_, (k6, _)))))) = known in
      let hours =
        outside_lem m.extended_session_open m.extended_session_close now (unmixed _ _ o3 o6 k3 k6)
          (unmixed _ _ o6 o4 k6 k4) in
      let clear =
        three_failures l.allow_extended_hours hours.0 (is_market o.order_type)
          l.allow_market_orders_in_extended_hours extended_disabled outside_extended
          market_order_in_extended in
      (
        _,
        rw (hours.1) refl,
        (
          λ h. let c = clear.0 h in (c.0, hours.2.0 c.1, c.2),
          λ h. clear.1 (h.0, hours.2.1 h.1, h.2),
        ),
      )

not_late : (late : Bool) → (not late ≡ true) ↔ (late ≡ false)
not_late true = (λ h. cc, λ h. cc)
not_late false = (λ h. refl, λ h. refl)

either_lacks : (a b : Bool) → (a || b) ≡ true → (a ≡ false) × (b ≡ false) → ⊥
either_lacks a b h k = ground (arith, h, k.0, k.1)

neither_lacks : (a b : Bool) → (a || b) ≡ false → (a ≡ false) × (b ≡ false)
neither_lacks a b h = ground arith

pub fresh_lem :
    (o : ProposedOrder) (s : AccountComplianceState) (l : ComplianceLimits)
    → o.created_timestamp.zone ≢ no_offset
    → s.current_timestamp.zone ≢ no_offset
    → timedelta_overflows l.maximum_market_status_age_seconds ≡ false
    → (b : Bool) × (fresh_order_state o s l ≡ ok b)
      × ((b ≡ true) ↔ (
          Known o.created_timestamp
          × Known s.current_timestamp
          × AgeWithin s.current_timestamp o.created_timestamp l.maximum_market_status_age_seconds))
unfolding fresh_order_state
fresh_lem o s l created now fits =
    let a = lacks_tzinfo o.created_timestamp.zone in
    let b = lacks_tzinfo s.current_timestamp.zone in
    elim (Bool-cases (a || b)) [
      | inl lacking ↦
          (false, rw lacking refl, (λ h. cc, λ h. absurd (either_lacks a b lacking (h.0, h.1))))
      | inr known ↦
          let k = neither_lacks a b known in
          let late =
            out_of_age_lem s.current_timestamp o.created_timestamp
              l.maximum_market_status_age_seconds (unmixed _ _ now created k.1 k.0) fits in
          let flipped = not_late late.0 in
          (
            not late.0,
            rw (known, late.1) refl,
            (λ h. (k.0, k.1, late.2.0 (flipped.0 h)), λ h. flipped.1 (late.2.1 h.2)),
          )
    ]
