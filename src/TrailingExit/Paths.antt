-- ===== src/TrailingExit/Paths.antt =====
-- What the simulations of app/trade_management/simulation.py report of a price path.
use webull_aitrader.Shared.{
  Arithmetic, ◌≡◌, ◌↔◌, ◌≤ℤ◌, ◌<ℤ◌, Bool, Option, none, some, refl, sym, ap, ◌∙◌, ℕ, suc, ◌+◌, true,
  false, ◌⊎◌, inl, inr, List, [], ◌∷◌, ◌++◌, ℤ, pos, leb_ℤ, max_ℤ, length, Bool-cases, Result,
  Result-cases, ok, err, ok-injective, any, >>=-eq-ok, raise_if-eq-ok, arith,
}
use mathlib.Core.Path.{subst}
use webull_aitrader.TrailingExit.{
  at_stop, ExitAction, exit, hold, raise_stop, validate_position, ExitError, TrailingExitConfig,
  ManagedLongPosition, ExitDecision, evaluate_long_position,
}
use webull_aitrader.TrailingExit.Protection.{
  validate_position-eq-ok, evaluate_long_position-GoodExit,
}
use webull_aitrader.TrailingExit.Simulation.{
  ExitMethod, fixed_target, trailing_stop, end_of_data, TradeSimulationResult, fixed_loop,
  trailing_loop, is_exit, result_of, ExitComparison, price_not_positive, validated_prices,
  from_exit, target_price, simulated_position, simulate_fixed_profit_target, simulate_trailing_stop,
  compare_exit_methods,
}

-- The latest price after more observations.
abbrev pub last_of : ℤ → List ℤ → ℤ
last_of l [] = l
last_of l (x ∷ xs) = last_of x xs

-- The highest price after more observations.
abbrev pub highest_of : ℤ → List ℤ → ℤ
highest_of h [] = h
highest_of h (x ∷ xs) = highest_of (max_ℤ h x) xs

-- A result after `n` observations and those of `xs`: the path splits into the prices that were
-- looked at and the others, of which there are none unless the method's own exit was met.
pub record GoodRun (method : ExitMethod) (last highest : ℤ) (n : ℕ) (xs : List ℤ)
    (r : TradeSimulationResult) : Type 0 where
  pub seen : List ℤ
  pub unseen : List ℤ
  pub splits : xs ≡ seen ++ unseen
  pub counted : r.observations_processed ≡ n + length seen
  pub exit_is_last : r.exit_price ≡ last_of last seen
  pub highest_seen : r.highest_price ≡ highest_of highest seen
  pub ends : (r.exit_method ≡ method) ⊎ ((r.exit_method ≡ end_of_data) × (unseen ≡ []))

-- The fixed target ends a run at the first price that has come up to it, and only there.
pub FixedEnds : ℤ → ℕ → List ℤ → TradeSimulationResult → Type 0
FixedEnds target n [] r = (r.exit_method ≡ end_of_data) × (r.observations_processed ≡ n)
FixedEnds target n (x ∷ xs) r =
    ((target ≤ℤ x) × (r.exit_method ≡ fixed_target) × (r.observations_processed ≡ suc n))
    ⊎ ((x <ℤ target) × FixedEnds target (suc n) xs r)

-- A price has come down to a stop that there is.
abbrev pub Reaches : Option ℤ → ℤ → Type 0
Reaches none price = ⊥
Reaches (some stop) price = price ≤ℤ stop

cons-GoodRun :
    (method : ExitMethod) (last highest : ℤ) (n : ℕ) (x : ℤ) (xs : List ℤ)
    {r : TradeSimulationResult}
    → GoodRun method x (max_ℤ highest x) (suc n) xs r
    → GoodRun method last highest n (x ∷ xs) r
cons-GoodRun method last highest n x xs g = record {
  seen = x ∷ g.seen;
  unseen = g.unseen;
  splits = ap (λ ys. x ∷ ys) g.splits;
  counted = g.counted ∙ omega arith;
  exit_is_last = g.exit_is_last;
  highest_seen = g.highest_seen;
  ends = g.ends;
}

-- An exit after the next observation, and the end of the path.
stop_at_next :
    (method : ExitMethod) (last highest : ℤ) (n : ℕ) (x : ℤ) (xs : List ℤ)
    (r : TradeSimulationResult)
    → r.exit_method ≡ method
    → r.exit_price ≡ x
    → r.highest_price ≡ max_ℤ highest x
    → r.observations_processed ≡ suc n
    → GoodRun method last highest n (x ∷ xs) r
stop_at_next method last highest n x xs r m e h c = record {
  seen = x ∷ [];
  unseen = xs;
  splits = refl;
  counted = c ∙ omega arith;
  exit_is_last = e;
  highest_seen = h;
  ends = inl m;
}

end_of_path :
    (method : ExitMethod) (last highest : ℤ) (n : ℕ) (r : TradeSimulationResult)
    → r.exit_method ≡ end_of_data
    → r.exit_price ≡ last
    → r.highest_price ≡ highest
    → r.observations_processed ≡ n
    → GoodRun method last highest n [] r
end_of_path method last highest n r m e h c = record {
  seen = [];
  unseen = [];
  splits = refl;
  counted = c ∙ omega arith;
  exit_is_last = e;
  highest_seen = h;
  ends = inr (m, refl);
}

both_ways : (b : Bool) → b ≡ true → b ≡ false → ⊥
both_ways b h k = cc

err_not_ok : {E A : Type 0} {e : E} {a : A} → ◌≡◌ {A = Result E A} (err e) (ok a) → ⊥
err_not_ok h = cc

validated_prices-eq-ok :
    (prices : List ℤ) {path : ℤ × List ℤ}
    → validated_prices prices ≡ ok path
    → prices ≡ path.0 ∷ path.1
unfolding validated_prices
validated_prices-eq-ok [] h = cc
validated_prices-eq-ok (x ∷ []) h = cc
validated_prices-eq-ok (x ∷ y ∷ ys) h =
    rw
      (← ok-injective
        (raise_if-eq-ok (any (λ v. leb_ℤ v (pos 0)) (x ∷ y ∷ ys)) price_not_positive _ h).1)
      refl

from_exit-eq-ok : {A : Type 0} (m : Result ExitError A) {a : A} → from_exit m ≡ ok a → m ≡ ok a
from_exit-eq-ok (ok a) h = ap ok (ok-injective h)
from_exit-eq-ok (err e) h = cc

at_stop_iff : (s : Option ℤ) (x : ℤ) → (at_stop s x ≡ true) ↔ Reaches s x
at_stop_iff none x = (λ h. cc, λ h. elim h [ ])
at_stop_iff (some s) x = ground arith

fixed_loop-FixedEnds :
    (decimal : Arithmetic) (target entry last highest : ℤ) (n : ℕ) (xs : List ℤ)
    → FixedEnds target n xs (fixed_loop decimal target entry last highest n xs)
unfolding fixed_loop FixedEnds
fixed_loop-FixedEnds decimal target entry last highest n [] = (refl, refl)
fixed_loop-FixedEnds decimal target entry last highest n (x ∷ xs) =
    elim (Bool-cases (leb_ℤ target x)) [
      | inl hit ↦ rw hit (inl (ground arith, refl, refl))
      | inr miss ↦ rw miss (
          inr (
            ground arith,
            fixed_loop-FixedEnds decimal target entry x (max_ℤ highest x) (suc n) xs,
          ))
    ]

module _ (decimal : Arithmetic) where
  -- The trailing stop ends a run at the first price that has come down to the stop of the position
  -- there, which the evaluations of the prices before have moved.
  pub TrailingEnds :
      TrailingExitConfig → ManagedLongPosition → ℕ → List ℤ → TradeSimulationResult → Type 0
  TrailingEnds c p n [] r = (r.exit_method ≡ end_of_data) × (r.observations_processed ≡ n)
  TrailingEnds c p n (x ∷ xs) r =
      (d : ExitDecision) × (evaluate_long_position decimal p x c ≡ ok d)
      × ((Reaches p.protective_stop x
            × (r.exit_method ≡ trailing_stop)
            × (r.observations_processed ≡ suc n))
          ⊎ (¬ Reaches p.protective_stop x × TrailingEnds c d.position (suc n) xs r))

  last_result :
      (c : TrailingExitConfig) (entry : ℤ) (p : ManagedLongPosition) (last : ℤ) (n : ℕ)
      {r : TradeSimulationResult}
      → trailing_loop decimal c entry p last n [] ≡ ok r
      → result_of decimal end_of_data entry last p.highest_price n ≡ r
  unfolding trailing_loop
  last_result c entry p last n h = ok-injective h

  fixed_loop-GoodRun :
      (target entry last highest : ℤ) (n : ℕ) (xs : List ℤ)
      → GoodRun fixed_target last highest n xs (fixed_loop decimal target entry last highest n xs)
  unfolding fixed_loop
  fixed_loop-GoodRun target entry last highest n [] =
      end_of_path fixed_target last highest n _ refl refl refl refl
  fixed_loop-GoodRun target entry last highest n (x ∷ xs) = elim (Bool-cases (leb_ℤ target x)) [
    | inl hit ↦ rw hit (stop_at_next fixed_target last highest n x xs _ refl refl refl refl)
    | inr miss ↦ rw miss (
        cons-GoodRun fixed_target last highest n x xs
          (fixed_loop-GoodRun target entry x (max_ℤ highest x) (suc n) xs))
  ]

  module _ (c : TrailingExitConfig) (entry : ℤ) (p : ManagedLongPosition) (last : ℤ) (n : ℕ) (x : ℤ)
      (xs : List ℤ) where
    trailing_failed :
        {e : ExitError}
        → evaluate_long_position decimal p x c ≡ err e
        → trailing_loop decimal c entry p last n (x ∷ xs) ≡ err e
    unfolding trailing_loop
    trailing_failed h = rw (h, trailing_loop) refl

    trailing_stopped :
        (d : ExitDecision)
        → evaluate_long_position decimal p x c ≡ ok d
        → is_exit d.action ≡ true
        → trailing_loop decimal c entry p last n (x ∷ xs)
          ≡ ok (result_of decimal trailing_stop entry x d.position.highest_price (suc n))
    unfolding trailing_loop
    trailing_stopped d h e = rw (h, trailing_loop, e) refl

    trailing_held :
        (d : ExitDecision)
        → evaluate_long_position decimal p x c ≡ ok d
        → is_exit d.action ≡ false
        → trailing_loop decimal c entry p last n (x ∷ xs)
          ≡ trailing_loop decimal c entry d.position x (suc n) xs
    unfolding trailing_loop
    trailing_held d h e = rw (h, trailing_loop, e) refl

  trailing_loop-GoodRun :
      (c : TrailingExitConfig) (entry : ℤ) (p : ManagedLongPosition) (last : ℤ) (n : ℕ)
      (xs : List ℤ) {r : TradeSimulationResult}
      → trailing_loop decimal c entry p last n xs ≡ ok r
      → GoodRun trailing_stop last p.highest_price n xs r
  trailing_loop-GoodRun c entry p last n [] h = rw (← last_result c entry p last n h) (
      end_of_path trailing_stop last p.highest_price n
        (result_of decimal end_of_data entry last p.highest_price n) refl refl refl refl)
  trailing_loop-GoodRun c entry p last n (x ∷ xs) {r} h =
      elim (Result-cases (evaluate_long_position decimal p x c)) [
        | inr (e, failed) ↦
            elim (err_not_ok (sym (trailing_failed c entry p last n x xs failed) ∙ h)) [ ]
        | inl (d, made) ↦
            let highest =
              (evaluate_long_position-GoodExit decimal p x c made).keeps.highest_is_max in
            elim (Bool-cases (is_exit d.action)) [
              | inl stop ↦
                  subst (GoodRun trailing_stop last p.highest_price n (x ∷ xs))
                    (ok-injective (sym (trailing_stopped c entry p last n x xs d made stop) ∙ h))
                    (stop_at_next trailing_stop last p.highest_price n x xs
                      (result_of decimal trailing_stop entry x d.position.highest_price (suc n))
                      refl refl highest refl)
              | inr held ↦ cons-GoodRun trailing_stop last p.highest_price n x xs (
                  subst (λ m. GoodRun trailing_stop x m (suc n) xs r) highest
                    (trailing_loop-GoodRun c entry d.position x (suc n) xs
                      (sym (trailing_held c entry p last n x xs d made held) ∙ h)))
            ]
      ]

  is_exit_iff : (a : ExitAction) → (is_exit a ≡ true) ↔ (a ≡ exit)
  is_exit_iff exit = (λ h. refl, λ h. refl)
  is_exit_iff hold = (λ h. cc, λ h. cc)
  is_exit_iff raise_stop = (λ h. cc, λ h. cc)

  trailing_loop-TrailingEnds :
      (c : TrailingExitConfig) (entry : ℤ) (p : ManagedLongPosition) (last : ℤ) (n : ℕ)
      (xs : List ℤ) {r : TradeSimulationResult}
      → trailing_loop decimal c entry p last n xs ≡ ok r
      → TrailingEnds c p n xs r
  unfolding TrailingEnds
  trailing_loop-TrailingEnds c entry p last n [] h =
      rw (← last_result c entry p last n h) (refl, refl)
  trailing_loop-TrailingEnds c entry p last n (x ∷ xs) {r} h =
      elim (Result-cases (evaluate_long_position decimal p x c)) [
        | inr (e, failed) ↦
            elim (err_not_ok (sym (trailing_failed c entry p last n x xs failed) ∙ h)) [ ]
        | inl (d, made) ↦
            let exits = (evaluate_long_position-GoodExit decimal p x c made).exits_iff in
            let reaches = at_stop_iff p.protective_stop x in
            elim (Bool-cases (is_exit d.action)) [
              | inl stop ↦
                  let same =
                    ok-injective (sym (trailing_stopped c entry p last n x xs d made stop) ∙ h) in
                  (
                    d,
                    made,
                    inl (
                      reaches.0 (exits.0 ((is_exit_iff d.action).0 stop)),
                      ap (λ (q : TradeSimulationResult). q.exit_method) (sym same),
                      ap (λ (q : TradeSimulationResult). q.observations_processed) (sym same),
                    ),
                  )
              | inr held ↦ (
                d,
                made,
                inr (
                  λ there.
                      both_ways (is_exit d.action)
                        ((is_exit_iff d.action).1 (exits.1 (reaches.1 there))) held,
                  trailing_loop-TrailingEnds c entry d.position x (suc n) xs
                      (sym (trailing_held c entry p last n x xs d made held) ∙ h),
                ),
              )
            ]
      ]

  -- What each simulation runs on.
  abbrev OfPath : ExitMethod → List ℤ → (ℤ → List ℤ → Type 0) → TradeSimulationResult → Type 0
  OfPath method prices Ends r =
      (path : ℤ × List ℤ) × (validated_prices prices ≡ ok path)
      × GoodRun method path.0 path.0 1 path.1 r
      × Ends path.0 path.1

  fixed-GoodRun :
      (prices : List ℤ) (percent : ℤ) {r : TradeSimulationResult}
      → simulate_fixed_profit_target decimal prices percent ≡ ok r
      → OfPath fixed_target prices (λ x xs. FixedEnds (target_price decimal x percent) 1 xs r) r
  unfolding simulate_fixed_profit_target
  fixed-GoodRun prices percent h =
      let (path, valid, made) = >>=-eq-ok (validated_prices prices) _ h in
      (
        path,
        valid,
        subst (GoodRun fixed_target path.0 path.0 1 path.1) (ok-injective made) (
            fixed_loop-GoodRun (target_price decimal path.0 percent) path.0 path.0 path.0 1 path.1),
        subst (FixedEnds (target_price decimal path.0 percent) 1 path.1) (ok-injective made) (
            fixed_loop-FixedEnds decimal (target_price decimal path.0 percent) path.0 path.0 path.0
              1 path.1),
      )

  trailing-GoodRun :
      (prices : List ℤ) (c : TrailingExitConfig) {r : TradeSimulationResult}
      → simulate_trailing_stop decimal prices c ≡ ok r
      → OfPath trailing_stop prices
          (λ x xs.
            (p : ManagedLongPosition) × (validate_position (simulated_position decimal x) ≡ ok p)
            × TrailingEnds c p 1 xs r)
          r
  unfolding simulate_trailing_stop
  trailing-GoodRun prices c {r} h =
      let (path, valid, rest) = >>=-eq-ok (validated_prices prices) _ h in
      let (p, started, made) =
        >>=-eq-ok (from_exit (validate_position (simulated_position decimal path.0))) _ rest in
      let valid_start =
        from_exit-eq-ok (validate_position (simulated_position decimal path.0)) started in
      let same = validate_position-eq-ok (simulated_position decimal path.0) valid_start in
      let run = from_exit-eq-ok (trailing_loop decimal c path.0 p path.0 1 path.1) made in
      (
        path,
        valid,
        subst (λ m. GoodRun trailing_stop path.0 m 1 path.1 r)
            (ap (λ (q : ManagedLongPosition). q.highest_price) (sym same))
            (trailing_loop-GoodRun c path.0 p path.0 1 path.1 run),
        (p, valid_start, trailing_loop-TrailingEnds c path.0 p path.0 1 path.1 run),
      )

  -- What `compare_exit_methods` reports of a path of a first price and the others.
  pub record GoodComparison (percent : ℤ) (c : TrailingExitConfig) (x : ℤ) (xs : List ℤ)
      (e : ExitComparison) : Type 0 where
    pub fixed_run : GoodRun fixed_target x x 1 xs e.fixed_result
    pub fixed_ends : FixedEnds (target_price decimal x percent) 1 xs e.fixed_result
    pub trailing_run : GoodRun trailing_stop x x 1 xs e.trailing_result
    pub start : ManagedLongPosition
    pub started : validate_position (simulated_position decimal x) ≡ ok start
    pub trailing_ends : TrailingEnds c start 1 xs e.trailing_result

  -- When `compare_exit_methods` returns, the path has a first price and more, and each of the two
  -- results comes from looking at a prefix of the path: it counts that prefix, its exit price is the
  -- last price there and its highest price the highest there. The run under the fixed target ends
  -- with an exit at the first later price that is at least the target, the run under the trailing
  -- stop at the first one that is at most the stop that the evaluations before it have set; without
  -- such a price the run is the whole path and ends with its data.
  pub compare_exit_methods-GoodComparison :
      (prices : List ℤ) (percent : ℤ) (c : TrailingExitConfig) {e : ExitComparison}
      → compare_exit_methods decimal prices percent c ≡ ok e
      → (x : ℤ) × (xs : List ℤ) × (prices ≡ x ∷ xs) × GoodComparison percent c x xs e
  unfolding compare_exit_methods
  compare_exit_methods-GoodComparison prices percent c h =
      let (f, fixed, rest) = >>=-eq-ok (simulate_fixed_profit_target decimal prices percent) _ h in
      let (t, trailing, made) = >>=-eq-ok (simulate_trailing_stop decimal prices c) _ rest in
      let (path, valid, good, ends) = fixed-GoodRun prices percent fixed in
      let moved = trailing-GoodRun prices c trailing in
      let same : moved.0 ≡ path = ok-injective (sym moved.1 ∙ valid) in
      let retold =
        subst
          (λ (y : ℤ × List ℤ).
            GoodRun trailing_stop y.0 y.0 1 y.1 t
            × ((p : ManagedLongPosition) × (validate_position (simulated_position decimal y.0)
                  ≡ ok p)
                × TrailingEnds c p 1 y.1 t))
          same (moved.2, moved.3) in
      (
        path.0,
        path.1,
        validated_prices-eq-ok prices valid,
        subst (GoodComparison percent c path.0 path.1) (ok-injective made) record {
          fixed_run = good;
          fixed_ends = ends;
          trailing_run = retold.0;
          start = retold.1.0;
          started = retold.1.1;
          trailing_ends = retold.1.2;
        },
      )
