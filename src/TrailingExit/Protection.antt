-- ===== src/TrailingExit/Protection.antt =====
-- About the safety of `evaluate_long_position` in app/trade_management/trailing_exit.py.
use webull_aitrader.Shared.{
  Arithmetic, ◌≡◌, ◌↔◌, refl, Bool, true, false, ◌||◌, Option, none, some, ℤ, pos, ◌≤ℤ◌, ltb_ℤ,
  leb_ℤ, max_ℤ, Bool-cases, inl, inr, normalize, is_empty, ok, >>=-eq-ok, raise_if-eq-ok, >>-eq-ok,
  ok-injective, if◌then◌else◌, arith,
}
use webull_aitrader.TrailingExit.{
  exit, hold, raise_stop, TrailingExitConfig, ManagedLongPosition, ExitDecision, validate_position,
  higher_stop, at_stop, candidate_stop, exit_decision, hold_decision, percent_change,
  evaluate_long_position, require_stop, require_positive, symbol_required, not_positive,
  highest_below_entry,
}

-- The second stop protects at least as well as the first.
abbrev pub Protects : Option ℤ → Option ℤ → Type 0
Protects none s = Unit {0}
Protects (some a) none = ⊥
Protects (some a) (some b) = a ≤ℤ b

-- What an evaluation does to a position.
pub record Keeps (p : ManagedLongPosition) (price : ℤ) (q : ManagedLongPosition) : Type 0 where
  pub same_symbol : q.symbol ≡ normalize p.symbol
  pub same_entry : q.entry_price ≡ p.entry_price
  pub same_quantity : q.quantity ≡ p.quantity
  pub highest_is_max : q.highest_price ≡ max_ℤ p.highest_price price
  pub stop_kept : Protects p.protective_stop q.protective_stop
  pub stays_activated : (p.trailing_activated || q.trailing_activated) ≡ q.trailing_activated

Protects-refl : (s : Option ℤ) → Protects s s
Protects-refl none = tt
Protects-refl (some a) = omega arith

Protects-higher_stop : (s c : Option ℤ) → Protects s (higher_stop s c)
Protects-higher_stop none c = tt
Protects-higher_stop (some e) none = omega arith
Protects-higher_stop (some e) (some c) = ground arith

or_self : (b : Bool) → (b || b) ≡ b
or_self true = refl
or_self false = refl

or_absorb : (a b : Bool) → (a || (a || b)) ≡ (a || b)
or_absorb true b = refl
or_absorb false b = refl

pub validate_position-eq-ok :
    (p : ManagedLongPosition) {q : ManagedLongPosition}
    → validate_position p ≡ ok q
    → (record p { symbol = normalize p.symbol }) ≡ q
unfolding validate_position
validate_position-eq-ok p h =
    let a = raise_if-eq-ok (is_empty (normalize p.symbol)) symbol_required _ h in
    let b = raise_if-eq-ok (leb_ℤ p.entry_price (pos 0)) not_positive _ a.1 in
    let c = raise_if-eq-ok (leb_ℤ p.quantity (pos 0)) not_positive _ b.1 in
    let d = raise_if-eq-ok (leb_ℤ p.highest_price (pos 0)) not_positive _ c.1 in
    let e = raise_if-eq-ok (ltb_ℤ p.highest_price p.entry_price) highest_below_entry _ d.1 in
    ok-injective (>>-eq-ok (require_stop p.protective_stop) _ e.1).1

branch_of :
    {A : Type 0} {b b' : Bool} (x y : A) {z : A}
    → b ≡ b'
    → (if b then x else y) ≡ z
    → (if b' then x else y) ≡ z
branch_of x y e h = rw (← e) h

module _ (decimal : Arithmetic) (p : ManagedLongPosition) (price : ℤ) where
  -- What a decision says of the position before it.
  pub record GoodExit (d : ExitDecision) : Type 0 where
    pub keeps : Keeps p price d.position
    pub recommends : d.recommended_stop ≡ d.position.protective_stop
    pub exits_iff : (d.action ≡ exit) ↔ (at_stop p.protective_stop price ≡ true)

  action_not_exit : (b : Bool) → (if b then raise_stop else hold) ≡ exit → ⊥
  action_not_exit true h = cc
  action_not_exit false h = cc

  exit_decision-GoodExit :
      (gain : ℤ) {d : ExitDecision}
      → at_stop p.protective_stop price ≡ true
      → exit_decision decimal p price gain (max_ℤ p.highest_price price) ≡ ok d
      → GoodExit d
  unfolding exit_decision
  exit_decision-GoodExit gain t h =
      let (q, v, made) = >>=-eq-ok (validate_position moved) _ h in
      rw (← ok-injective made, ← validate_position-eq-ok moved v)
        (record {
          keeps = record {
            same_symbol = refl;
            same_entry = refl;
            same_quantity = refl;
            highest_is_max = refl;
            stop_kept = Protects-refl p.protective_stop;
            stays_activated = or_self p.trailing_activated;
          };
          recommends = refl;
          exits_iff = (λ e. t, λ e. refl);
        })
    where
      moved : ManagedLongPosition
      moved = record p { highest_price = max_ℤ p.highest_price price }

  hold_decision-GoodExit :
      (c : TrailingExitConfig) (gain : ℤ) (b : Bool) {d : ExitDecision}
      → at_stop p.protective_stop price ≡ false
      → hold_decision decimal p c price gain
          (max_ℤ p.highest_price price)
          (p.trailing_activated || b)
        ≡ ok d
      → GoodExit d
  unfolding hold_decision
  hold_decision-GoodExit c gain b f h =
      let (q, v, made) = >>=-eq-ok (validate_position moved) _ h in
      rw (← ok-injective made, ← validate_position-eq-ok moved v)
        (record {
          keeps = record {
            same_symbol = refl;
            same_entry = refl;
            same_quantity = refl;
            highest_is_max = refl;
            stop_kept = Protects-higher_stop p.protective_stop candidate;
            stays_activated = or_absorb p.trailing_activated b;
          };
          recommends = refl;
          exits_iff = (λ e. elim (action_not_exit _ e) [ ], λ e. cc);
        })
    where
      candidate : Option ℤ
      candidate =
          candidate_stop decimal p c gain (max_ℤ p.highest_price price) (p.trailing_activated || b)

      moved : ManagedLongPosition
      moved = record p {
        highest_price = max_ℤ p.highest_price price;
        protective_stop = higher_stop p.protective_stop candidate;
        trailing_activated = p.trailing_activated || b;
      }

  -- A decision that `evaluate_long_position` returns keeps the position's symbol up to spelling, its
  -- entry and its quantity, raises the highest price to the current one if that is higher, never
  -- lowers or drops the protective stop, never deactivates trailing, recommends the stop that the
  -- position then has, and is to exit exactly if there was a stop and the price has come down to it.
  pub evaluate_long_position-GoodExit :
      (c : TrailingExitConfig) {d : ExitDecision}
      → evaluate_long_position decimal p price c ≡ ok d
      → GoodExit d
  unfolding evaluate_long_position
  evaluate_long_position-GoodExit c h =
      let rest = (>>-eq-ok (require_positive price) _ h).1 in
      elim (Bool-cases (at_stop p.protective_stop price)) [
        | inl t ↦
            exit_decision-GoodExit (percent_change decimal p.entry_price price) t
              (branch_of _ _ t rest)
        | inr f ↦
            hold_decision-GoodExit c (percent_change decimal p.entry_price price)
              (leb_ℤ c.activation_gain_percent
                (percent_change decimal p.entry_price (max_ℤ p.highest_price price)))
              f (branch_of _ _ f rest)
      ]
