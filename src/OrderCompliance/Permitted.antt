-- ===== src/OrderCompliance/Permitted.antt =====
-- About the proposals that app/order_compliance/validator.py approves, with all that it asks of them.
use webull_aitrader.RiskAdvice.{LegacyRiskDecision}
use webull_aitrader.Shared.{
  none_left, ◌≢◌, no_offset, ok, timedelta_overflows, ◌≡◌, ◌↔◌, refl, ap, ◌<◌, Bool, true, false,
  ◌&&◌, ◌⊎◌, inl, inr, Option, some, List, [], All, normalize, text_eq_iff, ℤ, pos, ◌≤ℤ◌, ◌<ℤ◌,
  Arithmetic, arith,
}
use webull_aitrader.Compliance.Sell.{SellComplianceDecision}
use webull_aitrader.OrderCompliance.{
  CheckName, ProposedOrder, AccountComplianceState, MarketComplianceState, ComplianceLimits,
  OrderComplianceDecision,
}
use webull_aitrader.OrderCompliance.Prices.{validate_prices}
use webull_aitrader.OrderCompliance.Market.{MarketFailure, KillSwitchState}
use webull_aitrader.OrderCompliance.Validator.{
  DecimalText, is_sell, is_in, order_fingerprint, labelled, is_freshness, is_symbol, is_status,
  is_session, maximum_quantity, proposal_price, base_valid, is_cash_sell, within, maximum,
  check_list, decision_of, evaluate_order_compliance,
}
use webull_aitrader.OrderCompliance.Approved.{
  none_left-[], none_failed_iff, labels_cover, off_iff, risk_iff, sale_iff, within_iff, held_iff,
  flip, less_iff, MarketClear, market_lem,
}
use webull_aitrader.OrderCompliance.Clocks.{AgeWithin, Known, session_times, fresh_lem}
use webull_aitrader.OrderCompliance.Conforming.{PricesConform, prices_iff}
use webull_aitrader.OrderCompliance.Rules.{
  ValidFields, valid_iff, WithinMaximum, maximum_iff, LossWithin, loss_iff, ExposureWithin,
  exposure_iff,
}

right_true : (a b : Bool) → (a && b) ≡ true → b ≡ true
right_true a b h = ground arith

both_true : (a b : Bool) → a ≡ true → b ≡ true → (a && b) ≡ true
both_true a b h k = ground arith

held_only :
    (b : Bool) (q v : ℤ) → ((b ≡ false) ⊎ ((pos 0 <ℤ q) × (q ≤ℤ v))) → (b ≡ false) ⊎ (q ≤ℤ v)
held_only b q v (inl h) = inl h
held_only b q v (inr h) = inr h.1

held_more :
    (b : Bool) (q v : ℤ)
    → pos 0 <ℤ q
    → ((b ≡ false) ⊎ (q ≤ℤ v))
    → (b ≡ false) ⊎ ((pos 0 <ℤ q) × (q ≤ℤ v))
held_more b q v p (inl h) = inl h
held_more b q v p (inr h) = inr (p, h)

none_labelled :
    (is_label : CheckName → Bool) {fs : List MarketFailure}
    → fs ≡ []
    → none_left (labelled is_label fs) ≡ true
none_labelled is_label h = ap (λ x. none_left (labelled is_label x)) h

module _ (decimal : Arithmetic) (decimal_text : DecimalText) (o : ProposedOrder)
    (s : AccountComplianceState) (m : MarketComplianceState) (l : ComplianceLimits)
    (k : KillSwitchState) (gfv : Option SellComplianceDecision)
    (risk : Option LegacyRiskDecision) where
  -- Timestamps that can be subtracted and compared, and an age limit that a `timedelta` holds. A time
  -- without any zone is compared with none.
  pub record Comparable : Type 0 where
    pub created_offset : o.created_timestamp.zone ≢ no_offset
    pub session_offsets : All (λ t. t.zone ≢ no_offset) (session_times m s.current_timestamp)
    pub age_fits : timedelta_overflows l.maximum_market_status_age_seconds ≡ false

  -- What an approval asks.
  pub record Permitted : Type 0 where
    pub fields_valid : ValidFields o s l
    pub switch_off : k.enabled ≡ false
    pub risk_approved : (d : LegacyRiskDecision) × (risk ≡ some d) × (d.approved ≡ true)
    pub sale_approved :
        (is_cash_sell decimal decimal_text o s m l k gfv risk ≡ false)
        ⊎ ((d : SellComplianceDecision) × (gfv ≡ some d)
            × (d.approved ≡ true)
            × (d.requested_quantity ≡ o.quantity))
    pub within_maximum : WithinMaximum decimal o.side o s risk gfv (proposal_price o m)
    pub order_fresh :
        AgeWithin s.current_timestamp o.created_timestamp l.maximum_market_status_age_seconds
    pub market_clear : MarketClear o m l s.current_timestamp
    pub same_symbol : normalize o.symbol ≡ normalize m.symbol
    pub prices_conform : PricesConform decimal o.order_type o m.price_tick_size
    pub new_id : is_in o.request_id s.open_order_request_ids ≡ false
    pub new_fingerprint : is_in (order_fingerprint decimal_text o) s.open_order_fingerprints ≡ false
    pub held : (is_sell o.side ≡ false) ⊎ (o.quantity ≤ℤ s.current_symbol_position_quantity)
    pub trades_left : s.trades_executed_today < l.maximum_trades_per_day
    pub loss_within : LossWithin decimal s l
    pub exposure_within : ExposureWithin decimal o.side o s l (proposal_price o m)

  abbrev checks : Bool → List MarketFailure → List (CheckName × Bool)
  checks = check_list decimal decimal_text o s m l k gfv risk

  -- The test of the maximum, of orders whose fields are valid.
  upstream_iff :
      base_valid decimal decimal_text o s m l k gfv risk ≡ true
      → (within decimal decimal_text o s m l k gfv risk
            (maximum decimal decimal_text o s m l k gfv risk)
          ≡ true)
        ↔ ((pos 0 <ℤ o.quantity)
            × (o.quantity ≤ℤ maximum_quantity decimal o s risk gfv (proposal_price o m)))
  upstream_iff valid =
      rw valid (
        within_iff true o.quantity (maximum_quantity decimal o s risk gfv (proposal_price o m))
          refl)

  module _ {order_is_fresh : Bool} {failures : List MarketFailure}
      (fresh_means : (order_is_fresh ≡ true) ↔ (
        Known o.created_timestamp
        × Known s.current_timestamp
        × AgeWithin s.current_timestamp o.created_timestamp l.maximum_market_status_age_seconds))
      (clear_means : (failures ≡ []) ↔ MarketClear o m l s.current_timestamp) where
    checks-Permitted : All (λ c. c.1 ≡ true) (checks order_is_fresh failures) → Permitted
    unfolding check_list
    checks-Permitted h =
        let (
          _,
          (
            t1,
            (
              t2,
              (
                t3,
                (
                  t4,
                  (
                    t5,
                    (
                      t6,
                      (
                        t7,
                        (
                          t8,
                          (
                            t9,
                            (t10, (t11, (t12, (t13, (t14, (t15, (t16, (t17, (t18, (t19, _)))))))))),
                          ),
                        ),
                      ),
                    ),
                  ),
                ),
              ),
            ),
          ),
        ) =
          h in
        let fields = (valid_iff o s l).0 t1 in
        let quantity = (upstream_iff t1).0 t5 in
        record {
          fields_valid = fields;
          switch_off = (off_iff k).0 t2;
          risk_approved = (risk_iff risk).0 t3;
          sale_approved =
              (sale_iff (is_cash_sell decimal decimal_text o s m l k gfv risk) gfv o.quantity).0 t4;
          within_maximum =
              (maximum_iff decimal o s l fields.quantity_positive fields.equity_positive o.side risk
                  gfv (proposal_price o m) refl).0
                quantity.1;
          order_fresh = (fresh_means.0 t6).2;
          market_clear = clear_means.0 (labels_cover failures t7 t9 t10 t11);
          same_symbol = (text_eq_iff (normalize o.symbol) (normalize m.symbol)).0 t8;
          prices_conform =
              (prices_iff decimal o.order_type o m.price_tick_size refl).0
                ((none_left-[] (validate_prices decimal o m.price_tick_size).failures).0 t12);
          new_id = (flip (is_in o.request_id s.open_order_request_ids)).0 t13;
          new_fingerprint =
              (flip (is_in (order_fingerprint decimal_text o) s.open_order_fingerprints)).0
                (right_true (base_valid decimal decimal_text o s m l k gfv risk) _ t14);
          held =
              held_only (is_sell o.side) o.quantity s.current_symbol_position_quantity
                ((held_iff (is_sell o.side) o.quantity s.current_symbol_position_quantity).0 t15);
          trades_left = (less_iff s.trades_executed_today l.maximum_trades_per_day).0 t16;
          loss_within = (loss_iff decimal s l).0 t17;
          exposure_within =
              (exposure_iff decimal o s l fields.quantity_positive fields.equity_positive o.side
                  (proposal_price o m) refl).0
                (t18, t19);
        }

    Permitted-checks : Permitted → All (λ c. c.1 ≡ true) (checks order_is_fresh failures)
    unfolding check_list
    Permitted-checks p =
        let f = p.fields_valid in
        let clear = clear_means.1 p.market_clear in
        let c1 = (valid_iff o s l).1 f in
        let c4 =
          (sale_iff (is_cash_sell decimal decimal_text o s m l k gfv risk) gfv o.quantity).1
            p.sale_approved in
        let most =
          (maximum_iff decimal o s l f.quantity_positive f.equity_positive o.side risk gfv
              (proposal_price o m) refl).1
            p.within_maximum in
        let c5 = (upstream_iff c1).1 (f.quantity_positive, most) in
        let c6 = fresh_means.1 (f.created_known, f.now_known, p.order_fresh) in
        let conform =
          (prices_iff decimal o.order_type o m.price_tick_size refl).1 p.prices_conform in
        let c12 = (none_left-[] (validate_prices decimal o m.price_tick_size).failures).1 conform in
        let c13 = (flip (is_in o.request_id s.open_order_request_ids)).1 p.new_id in
        let c14 = both_true (base_valid decimal decimal_text o s m l k gfv risk) _ c1 (
          (flip (is_in (order_fingerprint decimal_text o) s.open_order_fingerprints)).1
            p.new_fingerprint) in
        let c15 = (held_iff (is_sell o.side) o.quantity s.current_symbol_position_quantity).1 (
          held_more (is_sell o.side) o.quantity s.current_symbol_position_quantity
            f.quantity_positive p.held) in
        let (c18, c19) =
          (exposure_iff decimal o s l f.quantity_positive f.equity_positive o.side
              (proposal_price o m) refl).1
            p.exposure_within in
        (
          refl,
          (
            c1,
            (
              (off_iff k).1 p.switch_off,
              (
                (risk_iff risk).1 p.risk_approved,
                (
                  c4,
                  (
                    c5,
                    (
                      c6,
                      (
                        none_labelled is_freshness clear,
                        (
                          (text_eq_iff (normalize o.symbol) (normalize m.symbol)).1 p.same_symbol,
                          (
                            none_labelled is_symbol clear,
                            (
                              none_labelled is_status clear,
                              (
                                none_labelled is_session clear,
                                (
                                  c12,
                                  (
                                    c13,
                                    (
                                      c14,
                                      (
                                        c15,
                                        (
                                          (less_iff s.trades_executed_today
                                                l.maximum_trades_per_day).1
                                              p.trades_left,
                                          (
                                            (loss_iff decimal s l).1 p.loss_within,
                                            (c18, (c19, tt)),
                                          ),
                                        ),
                                      ),
                                    ),
                                  ),
                                ),
                              ),
                            ),
                          ),
                        ),
                      ),
                    ),
                  ),
                ),
              ),
            ),
          ),
        )

-- On timestamps that can be compared and an age limit that a timedelta holds, the evaluation returns
-- a decision, which approves the order exactly when it is permitted: the fields of order, account and
-- limits are valid; the kill switch is off; the risk decision approves, and for a cash sale the
-- settlement decision approves this very quantity; the quantity is at most the position, and its safe
-- part in a cash account, for a sale, or what the risk decision's percentage of the equity buys; order
-- and market status are not older than the limit; the market is open, the symbol tradable and the
-- same, and the time within the session; the order has the prices of its type, whole numbers of
-- ticks; neither its id nor its fingerprint is among the open ones; and trades, loss, position and
-- gross exposure are within their limits.
pub approved_iff :
    (decimal : Arithmetic) (decimal_text : DecimalText) (o : ProposedOrder)
    (s : AccountComplianceState) (m : MarketComplianceState) (l : ComplianceLimits)
    (k : KillSwitchState) (gfv : Option SellComplianceDecision) (risk : Option LegacyRiskDecision)
    → Comparable decimal decimal_text o s m l k gfv risk
    → (d : OrderComplianceDecision) × (evaluate_order_compliance decimal decimal_text o s m l k gfv
          risk
        ≡ ok d)
      × ((d.approved ≡ true) ↔ Permitted decimal decimal_text o s m l k gfv risk)
unfolding evaluate_order_compliance
approved_iff decimal decimal_text o s m l k gfv risk c =
    let (_, (_, (_, (_, (_, (now_offset, _)))))) = c.session_offsets in
    let fresh = fresh_lem o s l c.created_offset now_offset c.age_fits in
    let market = market_lem o m l s.current_timestamp c.session_offsets c.age_fits in
    let all =
      none_failed_iff (check_list decimal decimal_text o s m l k gfv risk fresh.0 market.0) in
    (
      decision_of decimal decimal_text o s m l k gfv risk fresh.0 market.0,
      rw (fresh.1, market.1) refl,
      (
        λ h. checks-Permitted decimal decimal_text o s m l k gfv risk fresh.2 market.2 (all.0 h),
        λ p. all.1 (Permitted-checks decimal decimal_text o s m l k gfv risk fresh.2 market.2 p),
      ),
    )
