-- ===== src/OrderCompliance/Conforming.antt =====
-- What app/order_compliance/price_rules.py asks of the prices of an order.
use webull_aitrader.Shared.{
  ◌≡◌, ◌↔◌, refl, sym, ◌∙◌, true, false, not, ◌||◌, Option, none, some, some-eq, List, [], ◌∷◌,
  ◌++◌, All, is_some, ℤ, pos, ◌<ℤ◌, ltb_ℤ, Bool-cases, inl, inr, Arithmetic, arith, if◌then◌else◌,
}
use mathlib.Core.Path.{subst}
use webull_aitrader.Orders.Model.{OrderType, market, limit, stop, stop_limit}
use webull_aitrader.OrderCompliance.{ProposedOrder}
use webull_aitrader.OrderCompliance.Prices.{
  PriceName, limit_name, stop_name, normalized, PriceFailure, PriceValidation, is_whole,
  validate_prices, limited_prices, check_prices, check_price, around, add_failure, price_missing,
  price_not_positive, price_off_tick, only_failures, price_or_zero, valid_decimal, bad_tick_size,
  market_with_prices, limit_not_allowed, stop_not_allowed,
}

not_empty : {A P : Type 0} (xs : List A) (x : A) → xs ++ x ∷ [] ≡ [] → P
not_empty [] x h = cc
not_empty (y ∷ xs) x h = cc

bad_tick : {P : Type 0} (v : ℤ) → ltb_ℤ (pos 0) v ≡ false → pos 0 <ℤ v → P
bad_tick v h k = ground (arith, h, k)

no_price : {P : Type 0} {p : ℤ} → ◌≡◌ {A = Option ℤ} none (some p) → P
no_price h = cc

module _ (decimal : Arithmetic) where
  -- A price that is given, positive and a whole number of ticks.
  abbrev pub Conforms : ℤ → Option ℤ → Type 0
  Conforms tick price =
      (p : ℤ) × (price ≡ some p) × (pos 0 <ℤ p) × (is_whole decimal (decimal.divide p tick) ≡ true)

  abbrev OfTick : Option ℤ → (ℤ → Type 0) → Type 0
  OfTick tick_size P = (tick : ℤ) × (tick_size ≡ some tick) × (pos 0 <ℤ tick) × P tick

  -- An order has exactly the prices of its type, and they conform to the tick size.
  abbrev pub PricesConform : OrderType → ProposedOrder → Option ℤ → Type 0
  PricesConform market o tick_size = (o.limit_price ≡ none) × (o.stop_price ≡ none)
  PricesConform limit o tick_size =
      OfTick tick_size (λ tick. (o.stop_price ≡ none) × Conforms tick o.limit_price)
  PricesConform stop o tick_size =
      OfTick tick_size (λ tick. (o.limit_price ≡ none) × Conforms tick o.stop_price)
  PricesConform stop_limit o tick_size =
      OfTick tick_size (λ tick. Conforms tick o.limit_price × Conforms tick o.stop_price)

  around_failures :
      (q tick : ℤ) (v : PriceValidation) → (around decimal q tick v).failures ≡ v.failures
  unfolding around
  around_failures q tick v = elim (Bool-cases (is_some v.lower_valid_tick)) [
    | inl given ↦ rw given refl
    | inr unset ↦ rw unset refl
  ]

  normalized_failures :
      (name : PriceName) (p : ℤ) (v : PriceValidation) → (normalized name p v).failures ≡ v.failures
  normalized_failures limit_name p v = refl
  normalized_failures stop_name p v = refl

  check_price_iff :
      (tick : ℤ) (name : PriceName) (p : ℤ) (v : PriceValidation)
      → ((check_price decimal tick name p v).failures ≡ [])
        ↔ ((v.failures ≡ []) × (pos 0 <ℤ p) × (is_whole decimal (decimal.divide p tick) ≡ true))
  unfolding check_price
  check_price_iff tick name p v = elim (Bool-cases (ltb_ℤ (pos 0) p)) [
    | inr low ↦
        rw low
          (λ h. not_empty v.failures (price_not_positive name) h, λ h. ground (arith, low, h.1))
    | inl above ↦ elim (Bool-cases (is_whole decimal (decimal.divide p tick))) [
      | inr off ↦
          rw (above, off)
            (
              λ h. not_empty v.failures (price_off_tick name) (
                  sym (
                    around_failures (decimal.divide p tick) tick
                      (add_failure v (price_off_tick name)))
                  ∙ h),
              λ h. cc,
            )
      | inl whole ↦
          rw (above, whole)
            (
              λ h. (sym (normalized_failures name p v) ∙ h, ground (arith, above), refl),
              λ h. normalized_failures name p v ∙ h.0,
            )
    ]
  ]

  check_prices_iff :
      (tick : ℤ) (ps : List (PriceName × Option ℤ)) (v : PriceValidation)
      → ((check_prices decimal tick ps v).failures ≡ [])
        ↔ ((v.failures ≡ []) × All (λ x. Conforms tick x.1) ps)
  unfolding check_prices
  check_prices_iff tick [] v = (λ h. (h, tt), λ h. h.0)
  check_prices_iff tick ((name, none) ∷ ps) v =
      let rest = check_prices_iff tick ps (add_failure v (price_missing name)) in
      (λ h. not_empty v.failures (price_missing name) (rest.0 h).0, λ h. no_price h.1.0.1)
  check_prices_iff tick ((name, some p) ∷ ps) v =
      let rest = check_prices_iff tick ps (check_price decimal tick name p v) in
      let here = check_price_iff tick name p v in
      (
        λ h. let r = rest.0 h in let c = here.0 r.0 in (c.0, ((p, refl, c.1, c.2), r.1)),
        λ h.
            let (clear, (conforms, others)) = h in
            rest.1 (
              here.1
                  (clear, rw (some-eq conforms.1) conforms.2, rw (some-eq conforms.1) conforms.3),
              others,
            ),
      )

  no_extra :
      (f : PriceFailure) (o : Option ℤ) → ((if is_some o then f ∷ [] else []) ≡ []) ↔ (o ≡ none)
  no_extra f none = (λ h. refl, λ h. refl)
  no_extra f (some v) = (λ h. cc, λ h. cc)

  neither :
      (f : PriceFailure) (a b : Option ℤ)
      → ((if is_some a || is_some b then f ∷ [] else []) ≡ []) ↔ ((a ≡ none) × (b ≡ none))
  neither f none none = (λ h. (refl, refl), λ h. refl)
  neither f none (some v) = (λ h. cc, λ h. cc)
  neither f (some v) b = (λ h. cc, λ h. cc)

  -- The checks under a tick size that is valid, or is not.
  limited_iff :
      (o : ProposedOrder) (tick_size : Option ℤ) (ps : List (PriceName × Option ℤ))
      (extra : List PriceFailure) {P : ℤ → Type 0}
      → ((tick : ℤ) → ((extra ≡ []) × All (λ x. Conforms tick x.1) ps) ↔ P tick)
      → ((if not (valid_decimal tick_size)
            then only_failures (bad_tick_size ∷ [])
            else check_prices decimal (price_or_zero tick_size) ps (only_failures extra)).failures
          ≡ [])
        ↔ OfTick tick_size P
  limited_iff o none ps extra {P = P} back = (λ h. cc, λ h. no_price h.1)
  limited_iff o (some tick) ps extra {P = P} back = elim (Bool-cases (ltb_ℤ (pos 0) tick)) [
    | inr low ↦
        rw low (λ h. cc, λ (tick', given, above, _). bad_tick tick low (rw (some-eq given) above))
    | inl above ↦
        let checks = check_prices_iff tick ps (only_failures extra) in
        rw above (
          λ h. (tick, refl, ground (arith, above), (back tick).0 (checks.0 h)),
          λ (tick', given, _, conform).
              checks.1 ((back tick).1 (subst P (sym (some-eq given)) conform)),
        )
  ]

  pub prices_iff :
      (type_of : OrderType) (o : ProposedOrder) (tick_size : Option ℤ)
      → o.order_type ≡ type_of
      → ((validate_prices decimal o tick_size).failures ≡ []) ↔ PricesConform type_of o tick_size
  unfolding validate_prices limited_prices
  prices_iff market o tick_size same =
      rw same (neither market_with_prices o.limit_price o.stop_price)
  prices_iff limit o tick_size same =
      let extra = no_extra stop_not_allowed o.stop_price in
      rw same (
        limited_iff o tick_size _ _
          (λ tick. (λ h. (extra.0 h.0, h.1.0), λ h. (extra.1 h.0, (h.1, tt)))))
  prices_iff stop o tick_size same =
      let extra = no_extra limit_not_allowed o.limit_price in
      rw same (
        limited_iff o tick_size _ _
          (λ tick. (λ h. (extra.0 h.0, h.1.0), λ h. (extra.1 h.0, (h.1, tt)))))
  prices_iff stop_limit o tick_size same =
      rw same (
        limited_iff o tick_size _ _
          (λ tick. (λ h. (h.1.0, h.1.1.0), λ h. (refl, (h.0, (h.1, tt))))))
