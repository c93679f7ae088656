-- ===== src/OrderCompliance/Rules.antt =====
-- What the checks of app/order_compliance/validator.py and price_rules.py ask, in terms of the amounts.
use webull_aitrader.Shared.{
  ◌*◌, some-eq, ◌≡◌, ◌↔◌, refl, ◌<◌, true, false, not, ◌&&◌, ◌||◌, ◌⊎◌, inl, inr, Option, none,
  some, strip, is_empty, ℤ, pos, ◌≤ℤ◌, ◌<ℤ◌, ◌+ℤ◌, ◌-ℤ◌, ltb_ℤ, leb_ℤ, max_ℤ, min_ℤ, lacks_tzinfo,
  Arithmetic, arith, if◌then◌else◌,
}
use webull_aitrader.RiskAdvice.{LegacyRiskDecision}
use webull_aitrader.Orders.Model.{OrderSide, buy, sell}
use webull_aitrader.Compliance.Lots.{AccountType, cash, margin}
use webull_aitrader.Compliance.Sell.{SellComplianceDecision}
use webull_aitrader.OrderCompliance.{ProposedOrder, AccountComplianceState, ComplianceLimits}
use webull_aitrader.OrderCompliance.Prices.{floor_whole}
use webull_aitrader.OrderCompliance.Validator.{
  valid_order, valid_account, valid_limits, is_cash, safe_maximum, percent_of, daily_loss_ok,
  maximum_quantity, exposure_checks,
}

-- The fields of an order, an account and limits that hold what they should.
pub record ValidFields (o : ProposedOrder) (s : AccountComplianceState) (l : ComplianceLimits)
    : Type 0 where
  pub id_present : is_empty (strip o.request_id) ≡ false
  pub symbol_present : is_empty (strip o.symbol) ≡ false
  pub quantity_positive : pos 0 <ℤ o.quantity
  pub created_known : lacks_tzinfo o.created_timestamp.zone ≡ false
  pub equity_positive : pos 0 <ℤ s.account_equity
  pub position_not_negative : pos 0 ≤ℤ s.current_symbol_position_quantity
  pub value_not_negative : pos 0 ≤ℤ s.current_symbol_market_value
  pub exposure_not_negative : pos 0 ≤ℤ s.current_total_gross_exposure
  pub now_known : lacks_tzinfo s.current_timestamp.zone ≡ false
  pub loss_amount_positive : pos 0 <ℤ l.maximum_daily_loss_amount
  pub loss_percent_positive : pos 0 <ℤ l.maximum_daily_loss_percent
  pub position_percent_positive : pos 0 <ℤ l.maximum_position_percent
  pub gross_percent_positive : pos 0 <ℤ l.maximum_gross_exposure_percent
  pub some_trades : 0 < l.maximum_trades_per_day
  pub age_not_negative : pos 0 ≤ℤ l.maximum_market_status_age_seconds

pub valid_iff :
    (o : ProposedOrder) (s : AccountComplianceState) (l : ComplianceLimits)
    → ((valid_order o && valid_account s && valid_limits l) ≡ true) ↔ ValidFields o s l
unfolding valid_order valid_account valid_limits
valid_iff o s l = (
  λ h. record {
    id_present = ground (arith, h);
    symbol_present = ground (arith, h);
    quantity_positive = ground (arith, h);
    created_known = ground (arith, h);
    equity_positive = ground (arith, h);
    position_not_negative = ground (arith, h);
    value_not_negative = ground (arith, h);
    exposure_not_negative = ground (arith, h);
    now_known = ground (arith, h);
    loss_amount_positive = ground (arith, h);
    loss_percent_positive = ground (arith, h);
    position_percent_positive = ground (arith, h);
    gross_percent_positive = ground (arith, h);
    some_trades = ground (arith, h);
    age_not_negative = ground (arith, h);
  },
  λ v. ground (
    arith, v.id_present, v.symbol_present, v.quantity_positive, v.created_known, v.equity_positive,
    v.position_not_negative, v.value_not_negative, v.exposure_not_negative, v.now_known,
    v.loss_amount_positive, v.loss_percent_positive, v.position_percent_positive,
    v.gross_percent_positive, v.some_trades, v.age_not_negative,
  ),
)

module _ (decimal : Arithmetic) where
  -- The loss of the day is below both of its limits.
  abbrev pub LossWithin : AccountComplianceState → ComplianceLimits → Type 0
  LossWithin s l =
      let loss =
        max_ℤ (pos 0) (pos 0 -ℤ (s.current_daily_realized_pnl +ℤ s.current_daily_unrealized_pnl)) in
      (pos 0 <ℤ s.account_equity)
      × (loss <ℤ l.maximum_daily_loss_amount)
      × (percent_of decimal loss s.account_equity <ℤ l.maximum_daily_loss_percent)

  -- What the position after the order, and the exposure after it, are to be at most.
  abbrev pub ExposureWithin :
      OrderSide → ProposedOrder → AccountComplianceState → ComplianceLimits → Option ℤ → Type 0
  ExposureWithin sell o s l price = o.quantity ≤ℤ s.current_symbol_position_quantity
  ExposureWithin buy o s l price =
      (p : ℤ) × (price ≡ some p)
      × (percent_of decimal (s.current_symbol_market_value +ℤ decimal.times o.quantity p)
            s.account_equity
          ≤ℤ l.maximum_position_percent)
      × (percent_of decimal (s.current_total_gross_exposure +ℤ decimal.times o.quantity p)
            s.account_equity
          ≤ℤ l.maximum_gross_exposure_percent)

  -- What the quantity is to be at most: the position and, for a cash account, its safe part for a sale;
  -- the whole units that the risk decision's part of the equity buys for a purchase.
  abbrev pub WithinMaximum :
      OrderSide
      → ProposedOrder
      → AccountComplianceState
      → Option LegacyRiskDecision
      → Option SellComplianceDecision
      → Option ℤ
      → Type 0
  WithinMaximum sell o s risk gfv price =
      (o.quantity ≤ℤ s.current_symbol_position_quantity)
      × ((s.account_type ≡ margin)
          ⊎ ((d : SellComplianceDecision) × (gfv ≡ some d) × (o.quantity ≤ℤ d.safe_sell_quantity)))
  WithinMaximum buy o s risk gfv price =
      (d : LegacyRiskDecision) × (p : ℤ) × (risk ≡ some d)
      × (price ≡ some p)
      × (pos 0 ≤ℤ d.max_position_percent)
      × (o.quantity
          ≤ℤ floor_whole decimal (
              decimal.divide
                (decimal.divide (decimal.times s.account_equity d.max_position_percent)
                  (pos (100 * decimal.scale)))
                p))

  loss_size : (v : ℤ) → (if ltb_ℤ v (pos 0) then pos 0 -ℤ v else pos 0) ≡ max_ℤ (pos 0) (pos 0 -ℤ v)
  unfolding ◌-ℤ◌
  loss_size v = ground arith

  three_tests :
      (e a b c d : ℤ)
      → ((not (leb_ℤ e (pos 0)) && ltb_ℤ a b && ltb_ℤ c d) ≡ true)
        ↔ ((pos 0 <ℤ e) × (a <ℤ b) × (c <ℤ d))
  three_tests e a b c d = ground arith

  pub loss_iff :
      (s : AccountComplianceState) (l : ComplianceLimits)
      → (daily_loss_ok decimal s l ≡ true) ↔ LossWithin s l
  unfolding daily_loss_ok
  loss_iff s l = rw (loss_size (s.current_daily_realized_pnl +ℤ s.current_daily_unrealized_pnl)) (
      three_tests s.account_equity
        (max_ℤ (pos 0) (pos 0 -ℤ (s.current_daily_realized_pnl +ℤ s.current_daily_unrealized_pnl)))
        l.maximum_daily_loss_amount
        (percent_of decimal
          (max_ℤ (pos 0)
            (pos 0 -ℤ (s.current_daily_realized_pnl +ℤ s.current_daily_unrealized_pnl)))
          s.account_equity)
        l.maximum_daily_loss_percent)

  twice : (q v : ℤ) → ((leb_ℤ q v ≡ true) × (leb_ℤ q v ≡ true)) ↔ (q ≤ℤ v)
  twice q v = ground arith

  two_tests : (a b c d : ℤ) → ((leb_ℤ a b ≡ true) × (leb_ℤ c d ≡ true)) ↔ ((a ≤ℤ b) × (c ≤ℤ d))
  two_tests a b c d = ground arith

  no_price {ℓ} : {P : Type ℓ} {p : ℤ} → ◌≡◌ {A = Option ℤ} none (some p) → P
  no_price h = cc

  no_decision :
      {P : Type 0} {d : SellComplianceDecision}
      → ◌≡◌ {A = Option SellComplianceDecision} none (some d)
      → P
  no_decision h = cc

  no_risk :
      {P : Type 0} {d : LegacyRiskDecision} → ◌≡◌ {A = Option LegacyRiskDecision} none (some d) → P
  no_risk h = cc

  guard_off :
      (q e : ℤ) → pos 0 <ℤ q → pos 0 <ℤ e → (not (ltb_ℤ (pos 0) q) || not (ltb_ℤ (pos 0) e)) ≡ false
  guard_off q e h k = ground arith

  module _ (o : ProposedOrder) (s : AccountComplianceState) (l : ComplianceLimits)
      (wanted : pos 0 <ℤ o.quantity) (worth : pos 0 <ℤ s.account_equity) where
    pub exposure_iff :
        (side : OrderSide) (price : Option ℤ)
        → o.side ≡ side
        → (((exposure_checks decimal o s l price).0 ≡ true)
            × ((exposure_checks decimal o s l price).1 ≡ true))
          ↔ ExposureWithin side o s l price
    unfolding exposure_checks
    exposure_iff sell price same =
        rw (guard_off o.quantity s.account_equity wanted worth, same)
          (twice o.quantity s.current_symbol_position_quantity)
    exposure_iff buy none same =
        rw (guard_off o.quantity s.account_equity wanted worth, same) (λ h. cc, λ h. no_price h.1)
    exposure_iff buy (some p) same =
        let tests =
          two_tests
            (percent_of decimal (s.current_symbol_market_value +ℤ decimal.times o.quantity p)
              s.account_equity)
            l.maximum_position_percent
            (percent_of decimal (s.current_total_gross_exposure +ℤ decimal.times o.quantity p)
              s.account_equity)
            l.maximum_gross_exposure_percent in
        rw (guard_off o.quantity s.account_equity wanted worth, same)
          (
            λ h. let t = tests.0 h in (p, refl, t.0, t.1),
            λ (p', given, a, b). tests.1 (rw (some-eq given) (a, b)),
          )

    min_iff : (q a b : ℤ) → (q ≤ℤ min_ℤ a b) ↔ ((q ≤ℤ a) × (q ≤ℤ b))
    min_iff q a b = ground arith

    zero_or_more :
        (q r v : ℤ)
        → pos 0 <ℤ q
        → (q ≤ℤ (if ltb_ℤ r (pos 0) then pos 0 else v)) ↔ ((pos 0 ≤ℤ r) × (q ≤ℤ v))
    zero_or_more q r v h = ground arith

    no_more : {P : Type 0} → o.quantity ≤ℤ pos 0 → P
    no_more h = ground (arith, wanted, h)

    sale_maximum_iff :
        (t : AccountType) (gfv : Option SellComplianceDecision) (maximum : ℤ)
        → (o.quantity ≤ℤ (if is_cash t then safe_maximum maximum gfv else maximum)) ↔ (
            (o.quantity ≤ℤ maximum)
            × ((t ≡ margin)
                ⊎ ((d : SellComplianceDecision) × (gfv ≡ some d)
                    × (o.quantity ≤ℤ d.safe_sell_quantity))))
    sale_maximum_iff margin gfv maximum = (λ h. (h, inl refl), λ h. h.0)
    sale_maximum_iff cash none maximum =
        (λ h. no_more h, λ h. elim h.1 [ inl x ↦ cc | inr x ↦ no_decision x.1 ])
    sale_maximum_iff cash (some d) maximum =
        let least = min_iff o.quantity maximum d.safe_sell_quantity in
        (
          λ h. let t = least.0 h in (t.0, inr (d, refl, t.1)),
          λ h. least.1 (h.0, elim h.1 [ inl x ↦ cc | inr x ↦ rw (some-eq x.1) x.2 ]),
        )

    pub maximum_iff :
        (side : OrderSide) (risk : Option LegacyRiskDecision) (gfv : Option SellComplianceDecision)
        (price : Option ℤ)
        → o.side ≡ side
        → (o.quantity ≤ℤ maximum_quantity decimal o s risk gfv price)
          ↔ WithinMaximum side o s risk gfv price
    unfolding maximum_quantity
    maximum_iff sell risk gfv price same =
        rw same (sale_maximum_iff s.account_type gfv s.current_symbol_position_quantity)
    maximum_iff buy none gfv price same = rw same (λ h. no_more h, λ h. no_risk h.2)
    maximum_iff buy (some d) gfv none same = rw same (λ h. no_more h, λ h. no_price h.3)
    maximum_iff buy (some d) gfv (some p) same =
        let most =
          zero_or_more o.quantity d.max_position_percent
            (floor_whole decimal (
              decimal.divide
                (decimal.divide (decimal.times s.account_equity d.max_position_percent)
                  (pos (100 * decimal.scale)))
                p))
            wanted in
        rw same (
          λ h. let t = most.0 h in (d, p, refl, refl, t.0, t.1),
          λ (d', p', is_d, is_p, least, bound).
              most.1 (rw (some-eq is_d, some-eq is_p) (least, bound)),
        )
