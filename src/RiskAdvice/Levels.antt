-- ===== src/RiskAdvice/Levels.antt =====
-- About the tests of the price levels in app/risk/validator.py.
use webull_aitrader.Shared.{
  ◌≡◌, ◌≢◌, ◌↔◌, refl, Bool, true, false, not, ◌&&◌, Option, none, some, List, [], ◌∷◌, ◌++◌, ℤ,
  pos, ◌-ℤ◌, ◌≤ℤ◌, ◌<ℤ◌, ltb_ℤ, abs_ℤ, some-eq, none_left, eq_of_parts, arith, Arithmetic,
}
use webull_aitrader.RiskAdvice.{
  ResponseAction, buy_action, sell_action, hold_action, RiskLimits, RiskWarning, confidence_low,
  stop_not_positive, target_not_positive, stop_wrong_side, target_wrong_side, ratio_low,
  stop_required, target_required,
}
use webull_aitrader.RiskAdvice.Validator.{warn_if, level_warnings, ratio_fails, is_below_for_buy}

-- What the levels of a trade must satisfy: the stop on the side of the loss, the target on the side of the
-- gain, and a gain that is worth the loss.
abbrev pub Worthwhile : Arithmetic → RiskLimits → ResponseAction → ℤ → ℤ → ℤ → Type 0
Worthwhile decimal limits buy_action current stop target =
    (stop <ℤ current)
    × (current <ℤ target)
    × (limits.minimum_reward_risk_ratio ≤ℤ decimal.divide (target -ℤ current) (current -ℤ stop))
Worthwhile decimal limits sell_action current stop target =
    (current <ℤ stop)
    × (target <ℤ current)
    × (limits.minimum_reward_risk_ratio ≤ℤ decimal.divide (current -ℤ target) (stop -ℤ current))
Worthwhile decimal limits hold_action current stop target = Unit

-- No warning is left by six tests of which the later ones look at what passed the earlier ones.
six_pass :
    (low has_stop has_target stop_side target_side poor : Bool) (w1 w2 w3 w4 w5 w6 : RiskWarning)
    → (none_left (
          warn_if low w1
          ++ warn_if (not has_stop) w2
          ++ warn_if (not has_target) w3
          ++ warn_if (has_stop && not (has_stop && stop_side)) w4
          ++ warn_if (has_target && not (has_target && target_side)) w5
          ++ warn_if ((has_stop && stop_side) && (has_target && target_side) && poor) w6)
        ≡ true)
      ↔ ((low ≡ false)
          × (has_stop ≡ true)
          × (has_target ≡ true)
          × (stop_side ≡ true)
          × (target_side ≡ true)
          × (poor ≡ false))
six_pass true p q a b r w1 w2 w3 w4 w5 w6 = (λ h. cc, λ h. cc)
six_pass false false q a b r w1 w2 w3 w4 w5 w6 = (λ h. cc, λ h. cc)
six_pass false true false a b r w1 w2 w3 w4 w5 w6 = (λ h. cc, λ h. cc)
six_pass false true true false b r w1 w2 w3 w4 w5 w6 = (λ h. cc, λ h. cc)
six_pass false true true true false r w1 w2 w3 w4 w5 w6 = (λ h. cc, λ h. cc)
six_pass false true true true true true w1 w2 w3 w4 w5 w6 = (λ h. cc, λ h. cc)
six_pass false true true true true false w1 w2 w3 w4 w5 w6 =
    (λ h. (refl, refl, refl, refl, refl, refl), λ h. refl)

prefix_clear : (xs ys : List RiskWarning) → none_left (xs ++ ys) ≡ true → none_left xs ≡ true
prefix_clear [] ys h = refl
prefix_clear (x ∷ xs) ys h = h

some_left {ℓ} :
    {P : Type ℓ} (xs : List RiskWarning) (w : RiskWarning) → none_left (xs ++ (w ∷ [])) ≡ true → P
some_left [] w h = cc
some_left (x ∷ xs) w h = cc

gap : (a b : ℤ) → a <ℤ b → (abs_ℤ (b -ℤ a) ≡ b -ℤ a) × (abs_ℤ (a -ℤ b) ≡ b -ℤ a)
unfolding ◌-ℤ◌
gap a b h = (
  eq_of_parts (abs_ℤ (b -ℤ a)) (b -ℤ a) (ground arith),
  eq_of_parts (abs_ℤ (a -ℤ b)) (b -ℤ a) (ground arith),
)

gap_positive :
    (a b : ℤ)
    → a <ℤ b
    → (ltb_ℤ (pos 0) (abs_ℤ (b -ℤ a)) ≡ true) × (ltb_ℤ (pos 0) (abs_ℤ (a -ℤ b)) ≡ true)
unfolding ◌-ℤ◌
gap_positive a b h = (ground arith, ground arith)

module _ (decimal : Arithmetic) (limits : RiskLimits) (current stop target : ℤ) where
  buy_ratio :
      stop <ℤ current
      → current <ℤ target
      → (ratio_fails decimal current limits (some stop) (some target) ≡ false)
        ↔ (limits.minimum_reward_risk_ratio ≤ℤ decimal.divide (target -ℤ current) (current -ℤ stop))
  buy_ratio below above =
      rw
        (
          (gap_positive stop current below).0,
          (gap stop current below).0,
          (gap current target above).0,
        )
        (λ h. ground arith, λ h. ground arith)

  sell_ratio :
      current <ℤ stop
      → target <ℤ current
      → (ratio_fails decimal current limits (some stop) (some target) ≡ false)
        ↔ (limits.minimum_reward_risk_ratio ≤ℤ decimal.divide (current -ℤ target) (stop -ℤ current))
  sell_ratio above below =
      rw
        (
          (gap_positive current stop above).1,
          (gap current stop above).1,
          (gap target current below).1,
        )
        (λ h. ground arith, λ h. ground arith)

  -- One market action's levels, in both directions.
  levels_iff :
      (action : ResponseAction)
      → (action ≢ hold_action)
      → (is_below_for_buy action stop current ≡ true)
          × (is_below_for_buy action current target ≡ true)
          × (ratio_fails decimal current limits (some stop) (some target) ≡ false)
        ↔ Worthwhile decimal limits action current stop target
  levels_iff buy_action market = (
    λ h. (ground arith, ground arith, (buy_ratio (ground arith) (ground arith)).0 h.2),
    λ h. (ground arith, ground arith, (buy_ratio h.0 h.1).1 h.2),
  )
  levels_iff sell_action market = (
    λ h. (ground arith, ground arith, (sell_ratio (ground arith) (ground arith)).0 h.2),
    λ h. (ground arith, ground arith, (sell_ratio h.0 h.1).1 h.2),
  )
  levels_iff hold_action market = absurd (market refl)

absurd_none {ℓ} : {P : Type ℓ} {v : ℤ} → ◌≡◌ {A = Option ℤ} none (some v) → P
absurd_none h = cc

-- No warning is left when both prices are given and every test on them passes.
pub levels_clear :
    (decimal : Arithmetic) (limits : RiskLimits) (current : ℤ) (action : ResponseAction) (c : ℤ)
    (stop_loss take_profit : Option ℤ)
    → action ≢ hold_action
    → (none_left (
          level_warnings decimal
            record {
              action = action;
              confidence = c;
              stop_loss = stop_loss;
              take_profit = take_profit;
            }
            current
            limits)
        ≡ true)
      ↔ ((limits.minimum_confidence ≤ℤ c)
          × ((stop : ℤ) × (target : ℤ) × (stop_loss ≡ some stop)
              × (take_profit ≡ some target)
              × (pos 0 <ℤ stop)
              × (pos 0 <ℤ target)
              × Worthwhile decimal limits action current stop target))
unfolding level_warnings
levels_clear decimal limits current action c none t market =
    let low = warn_if (ltb_ℤ c limits.minimum_confidence) confidence_low in
    (
      λ h.
          some_left low stop_required
            (prefix_clear _ _ (prefix_clear _ _ (prefix_clear _ _ (prefix_clear _ _ h)))),
      λ (_, (_, _, given, _, _, _, _)). absurd_none given,
    )
levels_clear decimal limits current action c (some s) none market =
    let low = warn_if (ltb_ℤ c limits.minimum_confidence) confidence_low in
    let stop_bad = warn_if (not (ltb_ℤ (pos 0) s)) stop_not_positive in
    (
      λ h.
          some_left (low ++ stop_bad) target_required
            (prefix_clear _ _ (prefix_clear _ _ (prefix_clear _ _ h))),
      λ (_, (_, _, _, given, _, _, _)). absurd_none given,
    )
levels_clear decimal limits current action c (some s) (some t) market =
    let pass =
      six_pass (ltb_ℤ c limits.minimum_confidence) (ltb_ℤ (pos 0) s) (ltb_ℤ (pos 0) t)
        (is_below_for_buy action s current) (is_below_for_buy action current t)
        (ratio_fails decimal current limits (some s) (some t)) confidence_low stop_not_positive
        target_not_positive stop_wrong_side target_wrong_side ratio_low in
    let levels = levels_iff decimal limits current s t action market in
    (
      λ h.
          let p = pass.0 h in
          (ground arith, (s, t, refl, refl, ground arith, ground arith, levels.0 (p.3, p.4, p.5))),
      λ (confident, (stop, target, is_stop, is_target, stop_pos, target_pos, worth)).
          let same_stop = some-eq is_stop in
          let same_target = some-eq is_target in
          let w : Worthwhile decimal limits action current s t =
            rw (same_stop, same_target) worth in
          let l = levels.1 w in
          pass.1
            (ground arith, ground (arith, same_stop), ground (arith, same_target), l.0, l.1, l.2),
    )
