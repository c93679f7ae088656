-- ===== src/Simulator/Portfolio.antt =====
-- About the portfolio that `apply_fill` in app/paper_trading/portfolio.py returns.
use webull_aitrader.Shared.{
  ◌≡◌, ◌∙◌, refl, sym, ap, Bool, true, false, inl, inr, Option, none, some, List, [], Text, text_eq,
  All, sum_of, ℤ, pos, ◌+ℤ◌, ◌-ℤ◌, ◌≤ℤ◌, ◌<ℤ◌, eqb_ℤ, eqb_ℤ_iff, Dict, lookup, values,
  lookup-insert, Bool-cases, Arithmetic, arith, if◌then◌else◌,
}
use webull_aitrader.Simulator.{
  PaperPosition, PaperPortfolio, FillEffect, by_symbol, sort_positions, quantity_of, position_at,
  changed_positions,
}
use webull_aitrader.Simulator.Positions.{
  position_of, Distinct, Ascending, Keyed, position_of-sort_positions, All-sort_positions,
  sort_positions-Ascending,
}
use webull_aitrader.Simulator.Ledger.{
  Unique, position_of-values, Unique-Distinct, All-insert, All-pop, lookup-pop, Unique-insert,
  Unique-pop, or_else, lookup-by_symbol, by_symbol-Keyed, by_symbol-Unique, by_symbol-All,
  All-values,
}

pub or_else-none : (o : Option PaperPosition) → or_else o none ≡ o
or_else-none none = refl
or_else-none (some p) = refl

above_zero : (a : ℤ) → pos 0 ≤ℤ a → eqb_ℤ a (pos 0) ≡ false → pos 0 <ℤ a
above_zero a h k = ground arith

popped_quantity :
    (b : Bool) (a : ℤ) (o : Option PaperPosition)
    → eqb_ℤ a (pos 0) ≡ true
    → quantity_of (if b then none else o) ≡ (if b then a else quantity_of o)
popped_quantity true a o h = sym ((eqb_ℤ_iff a (pos 0)).0 h)
popped_quantity false a o h = refl

kept_quantity :
    (b : Bool) (p : PaperPosition) (o : Option PaperPosition)
    → quantity_of (if b then some p else o) ≡ (if b then p.quantity else quantity_of o)
kept_quantity true p o = refl
kept_quantity false p o = refl

module _ (decimal : Arithmetic) where
  -- A position that is long and whose derived amounts are those of its quantity, cost and mark.
  pub record GoodPosition (p : PaperPosition) : Type 0 where
    pub long : pos 0 <ℤ p.quantity
    pub mark_positive : pos 0 <ℤ p.current_mark
    pub value_is : p.market_value ≡ decimal.times p.quantity p.current_mark
    pub pnl_is : p.unrealized_pnl ≡ decimal.times (p.current_mark -ℤ p.average_cost) p.quantity

  -- A sound portfolio.
  pub record IsPortfolio (w : PaperPortfolio) : Type 0 where
    pub cash_nonnegative : pos 0 ≤ℤ w.cash
    pub ascending : Ascending w.positions
    pub good_positions : All GoodPosition w.positions
    pub unrealized_is : w.unrealized_pnl ≡ sum_of (λ p. p.unrealized_pnl) w.positions
    pub equity_is : w.equity ≡ w.cash +ℤ sum_of (λ p. p.market_value) w.positions

  module _ (w : PaperPortfolio) (key : Text) (e : FillEffect) (mark : ℤ) where
    abbrev dict : Dict PaperPosition
    dict = by_symbol [] w.positions

    abbrev changed : Dict PaperPosition
    changed = changed_positions decimal dict key e mark

    abbrev pub ordered : List PaperPosition
    ordered = sort_positions (values changed)

    changed-Keyed : Keyed changed
    unfolding changed_positions
    changed-Keyed = elim (Bool-cases (eqb_ℤ e.new_quantity (pos 0))) [
      | inl gone ↦
          rw gone (All-pop (λ x. x.0 ≡ x.1.symbol) key dict (by_symbol-Keyed [] w.positions tt))
      | inr left ↦ rw left (
          All-insert (λ x. x.0 ≡ x.1.symbol) key
            (position_at decimal key e.new_quantity e.average_cost mark) dict refl
            (by_symbol-Keyed [] w.positions tt))
    ]

    changed-Unique : Unique changed
    unfolding changed_positions
    changed-Unique = elim (Bool-cases (eqb_ℤ e.new_quantity (pos 0))) [
      | inl gone ↦ rw gone (Unique-pop key dict (by_symbol-Unique [] w.positions tt))
      | inr left ↦ rw left (
          Unique-insert key (position_at decimal key e.new_quantity e.average_cost mark) dict
            (by_symbol-Unique [] w.positions tt))
    ]

    pub ordered-Ascending : Ascending ordered
    ordered-Ascending =
        sort_positions-Ascending (values changed)
          (Unique-Distinct changed changed-Keyed changed-Unique)

    pub ordered-GoodPosition :
        pos 0 ≤ℤ e.new_quantity
        → pos 0 <ℤ mark
        → All GoodPosition w.positions
        → All GoodPosition ordered
    unfolding changed_positions
    ordered-GoodPosition enough marked good =
        let before = by_symbol-All GoodPosition [] w.positions tt good in
        All-sort_positions GoodPosition (values changed) (
          All-values GoodPosition changed (elim (Bool-cases (eqb_ℤ e.new_quantity (pos 0))) [
            | inl gone ↦ rw gone (All-pop (λ x. GoodPosition x.1) key dict before)
            | inr left ↦ rw left (
                All-insert (λ x. GoodPosition x.1) key
                  (position_at decimal key e.new_quantity e.average_cost mark) dict
                  (record {
                    long = above_zero e.new_quantity enough left;
                    mark_positive = marked;
                    value_is = refl;
                    pnl_is = refl;
                  })
                  before)
          ]))

    lookup-changed :
        (k : Text)
        → quantity_of (lookup k changed)
          ≡ (if text_eq k key then e.new_quantity else quantity_of (lookup k dict))
    unfolding changed_positions
    lookup-changed k = elim (Bool-cases (eqb_ℤ e.new_quantity (pos 0))) [
      | inl gone ↦ rw gone (
          ap quantity_of (lookup-pop k key dict)
          ∙ popped_quantity (text_eq k key) e.new_quantity (lookup k dict) gone)
      | inr left ↦ rw left (
          ap quantity_of
            (lookup-insert k key (position_at decimal key e.new_quantity e.average_cost mark) dict)
          ∙ kept_quantity (text_eq k key)
              (position_at decimal key e.new_quantity e.average_cost mark) (lookup k dict))
    ]

    pub lookup_found : (k : Text) → Distinct w.positions → lookup k dict ≡ position_of k w.positions
    lookup_found k h =
        lookup-by_symbol k [] w.positions h ∙ or_else-none (position_of k w.positions)

    -- The quantity held under every symbol after the fill.
    pub quantity_after :
        (k : Text)
        → Distinct w.positions
        → quantity_of (position_of k ordered)
          ≡ (if text_eq k key then e.new_quantity else quantity_of (position_of k w.positions))
    quantity_after k h =
        ap quantity_of (
          position_of-sort_positions k (values changed)
            (Unique-Distinct changed changed-Keyed changed-Unique)
          ∙ position_of-values k changed changed-Keyed)
        ∙ lookup-changed k
        ∙ ap (λ o. if text_eq k key then e.new_quantity else quantity_of o) (lookup_found k h)
