-- ===== src/Engine/Frame.antt =====
-- What `process_quote` of app/paper_trading/execution_engine.py leaves alone.
use mathlib.Core.Path.{subst}
use webull_aitrader.Shared.{
  Rounding, ◌≡◌, refl, sym, ◌∙◌, ap, ℕ, Bool, true, false, not, ◌&&◌, none, some, List, [], ◌∷◌,
  Text, ℤ, text_eq, text_eq_iff, normalize, some-eq, All, All-filter_kept, All-weaken, ok,
  Result-cases, lookup, lookup-insert, values, if◌then◌else◌, Bool-cases, Option-cases, inl, inr,
  raise_if-eq-ok, ok-injective, arith,
}
use webull_aitrader.Orders.Model.{PaperOrder, is_terminal}
use webull_aitrader.Orders.Lifecycle.{apply_fill}
use webull_aitrader.Orders.WellFormed.{IsWellFormed}
use webull_aitrader.Orders.Laws.{run_call-Moves, fill_call}
use webull_aitrader.Matching.{MarketQuote, MatchResult, match_order}
use webull_aitrader.Book.{OrderBook, open_orders_for_symbol, update}
use webull_aitrader.Book.Invariant.{IsValid, update-eq-ok}
use webull_aitrader.Engine.{
  EngineState, fill_args, fill_matched, settle, process_one, process_loop, process_quote,
}
use webull_aitrader.Engine.Invariant.{IsGood, snapshot-IsGood}

-- The order is open and its symbol is the quote's.
abbrev pub is_quoted : MarketQuote → PaperOrder → Bool
is_quoted q o = not (is_terminal o) && text_eq (normalize o.request.symbol) (normalize q.symbol)

abbrev HasOtherIdAt : Text → Text → Type 0
HasOtherIdAt k j = text_eq k j ≡ false

-- The order has another id.
abbrev HasOtherId : Text → PaperOrder → Type 0
HasOtherId k o = text_eq k o.order_id ≡ false

module _ (rounding : Rounding) where
  values-HasOtherId :
      (k : Text) (b : OrderBook)
      → IsValid rounding b
      → lookup k b ≡ none
      → All (HasOtherId k) (values b)
  values-HasOtherId k [] v h = tt
  values-HasOtherId k (e ∷ b) v h =
      let key = v.0.key_is_id in
      (
        subst (λ j. text_eq k j ≡ false) key (ground arith),
        values-HasOtherId k b v.2 (ground arith),
      )

  quoted-HasOtherId :
      (q : MarketQuote) (k : Text) (b : OrderBook) {o : PaperOrder}
      → IsValid rounding b
      → lookup k b ≡ some o
      → is_quoted q o ≡ false
      → All (λ x. is_quoted q x ≡ true → HasOtherId k x) (values b)
  quoted-HasOtherId q k [] v h u = tt
  quoted-HasOtherId q k (e ∷ b) {o = o} v h u = elim (Bool-cases (text_eq k e.0)) [
    | inl same ↦
        let here : e.1 ≡ o = some-eq (rw same at h) in
        let absent : lookup k b ≡ none =
          subst (λ j. lookup j b ≡ none) (sym ((text_eq_iff k e.0).0 same)) v.1 in
        (
          λ t. let bad = sym t ∙ ap (is_quoted q) here ∙ u in cc bad,
          All-weaken (HasOtherId k) (λ x. is_quoted q x ≡ true → HasOtherId k x) (values b)
              (λ x other _. other) (values-HasOtherId k b v.2 absent),
        )
    | inr other ↦ (
      λ _. subst (λ j. text_eq k j ≡ false) v.0.key_is_id other,
      quoted-HasOtherId q k b v.2 (rw other at h) u,
    )
  ]

  module _ (fill_ids : ℕ → Text) (k : Text) where
    fill_matched-lookup :
        (o : PaperOrder) (r : MatchResult) (p : ℤ) (st : EngineState)
        → IsWellFormed rounding o
        → HasOtherId k o
        → lookup k (fill_matched rounding fill_ids o r p st).1.book ≡ lookup k st.book
    unfolding fill_matched
    fill_matched-lookup o r p st w other =
        let a = fill_args r p (fill_ids st.drawn) in
        elim (Result-cases (apply_fill rounding o a)) [
          | inr (x, e) ↦ rw (e, fill_matched)
          | inl (o', e) ↦ elim (Result-cases (update o' st.book)) [
            | inr (x, e') ↦ rw (e, fill_matched, e')
            | inl (b, e') ↦
                rw (e, fill_matched, e')
                  (let id : o.order_id ≡ o'.order_id =
                      sym ((run_call-Moves rounding (fill_call a) o e).same_id ∙ w.id_stripped) in
                    let elsewhere : text_eq k o'.order_id ≡ false =
                      subst (HasOtherIdAt k) id other in
                    ap (lookup k) (sym (update-eq-ok o' st.book e').4)
                    ∙ lookup-insert k o'.order_id o' st.book
                    ∙ ap (λ (x : Bool). if x then some o' else lookup k st.book) elsewhere)
          ]
        ]

    settle-lookup :
        (o : PaperOrder) (r : MatchResult) (st : EngineState)
        → IsWellFormed rounding o
        → HasOtherId k o
        → lookup k (settle rounding fill_ids o r st).1.book ≡ lookup k st.book
    unfolding settle
    settle-lookup o r st w other = elim (Bool-cases r.matched) [
      | inr unmatched ↦ rw (unmatched, settle)
      | inl matched ↦ elim (Option-cases r.execution_price) [
        | inl e ↦ rw (matched, settle, e)
        | inr (p, e) ↦ rw (matched, settle, e) (fill_matched-lookup o r p st w other)
      ]
    ]

    process_one-lookup :
        (q : MarketQuote) (o : PaperOrder) (st : EngineState)
        → IsWellFormed rounding o
        → HasOtherId k o
        → lookup k (process_one rounding fill_ids q o st).1.book ≡ lookup k st.book
    unfolding process_one
    process_one-lookup q o st w other = elim (Result-cases (match_order o q)) [
      | inr (x, e) ↦ rw (e, process_one)
      | inl (r, e) ↦ rw (e, process_one) (settle-lookup o r st w other)
    ]

    process_loop-lookup :
        (q : MarketQuote) (os : List PaperOrder) (st : EngineState)
        → All (IsGood rounding) os
        → All (HasOtherId k) os
        → lookup k (process_loop rounding fill_ids q os st).1.book ≡ lookup k st.book
    unfolding process_loop
    process_loop-lookup q [] st g h = refl
    process_loop-lookup q (o ∷ os) st g h =
        let one = process_one-lookup q o st g.0.0 h.0 in
        let st' = (process_one rounding fill_ids q o st).1 in
        elim (Result-cases (process_one rounding fill_ids q o st).0) [
          | inr (x, e) ↦ rw (e, process_loop) one
          | inl (r, e) ↦ rw (e, process_loop) (process_loop-lookup q os st' g.1 h.1 ∙ one)
        ]

  snapshot-HasOtherId :
      (q : MarketQuote) (k : Text) (b : OrderBook) {o : PaperOrder} {os : List PaperOrder}
      → IsValid rounding b
      → lookup k b ≡ some o
      → is_quoted q o ≡ false
      → open_orders_for_symbol q.symbol b ≡ ok os
      → All (HasOtherId k) os
  unfolding open_orders_for_symbol
  snapshot-HasOtherId q k b v h u e =
      subst (All (HasOtherId k)) (ok-injective (raise_if-eq-ok _ _ _ e).1) (
        All-filter_kept (HasOtherId k) _ _ (
          All-filter_kept
            (λ x. text_eq (normalize x.request.symbol) (normalize q.symbol) ≡ true → HasOtherId k x)
            (λ x. not (is_terminal x)) (values b)
            (All-weaken _ _ (values b) (λ x f live same. f (rw (live, same)))
              (quoted-HasOtherId q k b v h u))))

  -- A quote leaves every stored order of another symbol as it was, and every order in a terminal
  -- status, also where a round of its loop raises.
  pub process_quote-lookup :
      (fill_ids : ℕ → Text) (q : MarketQuote) (k : Text) (st : EngineState) {o : PaperOrder}
      → IsValid rounding st.book
      → lookup k st.book ≡ some o
      → is_quoted q o ≡ false
      → lookup k (process_quote rounding fill_ids q st).1.book ≡ some o
  unfolding process_quote
  process_quote-lookup fill_ids q k st v h u =
      elim (Result-cases (open_orders_for_symbol q.symbol st.book)) [
        | inr (x, e) ↦ rw (e, process_quote) h
        | inl (os, e) ↦
            rw (e, process_quote)
              (process_loop-lookup fill_ids k q os st
                  (snapshot-IsGood rounding st.book q.symbol v e)
                  (snapshot-HasOtherId q k st.book v h u e)
                ∙ h)
      ]
