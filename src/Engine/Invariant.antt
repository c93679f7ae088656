-- ===== src/Engine/Invariant.antt =====
-- The validity of the book under the calls of app/paper_trading/execution_engine.py.
use mathlib.Core.Path.{subst}
use webull_aitrader.Shared.{
  Rounding, ◌≡◌, ap, ℕ, suc, List, [], ◌∷◌, Text, Datetime, ℤ, All, All-filter, ok, Result-cases,
  values, Bool-cases, Option-cases, inl, inr, raise_if-eq-ok, >>=-eq-ok, ok-injective,
}
use webull_aitrader.Orders.Model.{PaperOrder}
use webull_aitrader.Orders.Lifecycle.{apply_fill, expire_order}
use webull_aitrader.Orders.WellFormed.{IsWellFormed}
use webull_aitrader.Orders.Fills.{IsRecorded, run_call-IsRecorded}
use webull_aitrader.Orders.Laws.{run_call-Moves, fill_call, expire_call}
use webull_aitrader.Matching.{MarketQuote, MatchResult, match_order}
use webull_aitrader.Book.{
  OrderBook, is_day, open_orders_for_symbol, open_orders, submit, update, cancel, expire_one,
  expire_loop, expire_day_orders, from_order,
}
use webull_aitrader.Book.Invariant.{
  IsValid, submit-IsValid, update-IsValid, cancel-IsValid, from_order-eq-ok,
}
use webull_aitrader.Engine.{
  EngineState, fill_args, fill_matched, settle, process_one, process_loop, process_quote,
  submit_order, cancel_stored, expire_stored, is_accepted, EngineCall, after, after_all,
}

abbrev pub IsGood : Rounding → PaperOrder → Type 0
IsGood rounding o = IsWellFormed rounding o × IsRecorded o

module _ (rounding : Rounding) where
  pub values-IsGood : (b : OrderBook) → IsValid rounding b → All (IsGood rounding) (values b)
  values-IsGood [] v = tt
  values-IsGood (e ∷ b) v = ((v.0.well_formed, v.0.recorded), values-IsGood b v.2)

  pub snapshot-IsGood :
      (b : OrderBook) (symbol : Text) {os : List PaperOrder}
      → IsValid rounding b
      → open_orders_for_symbol symbol b ≡ ok os
      → All (IsGood rounding) os
  unfolding open_orders_for_symbol
  snapshot-IsGood b symbol v h =
      subst (All (IsGood rounding)) (ok-injective (raise_if-eq-ok _ _ _ h).1)
        (All-filter (IsGood rounding) _ _ (All-filter (IsGood rounding) _ _ (values-IsGood b v)))

  expire_one-IsValid :
      (at : Datetime) (o : PaperOrder) (b : OrderBook) {t : PaperOrder} {b' : OrderBook}
      → IsValid rounding b
      → IsGood rounding o
      → expire_one rounding at o b ≡ ok (t, b')
      → IsValid rounding b'
  unfolding expire_one
  expire_one-IsValid at o b v (w, r) h =
      let (t, moved, rest) = >>=-eq-ok (from_order (expire_order rounding o at)) _ h in
      let (b2, stored, pair) = >>=-eq-ok (update t b) _ rest in
      let call = from_order-eq-ok moved in
      subst (IsValid rounding) (ap (λ (x : PaperOrder × OrderBook). x.1) (ok-injective pair)) (
        update-IsValid rounding t b v (run_call-Moves rounding (expire_call at) o call).well_formed
          (run_call-IsRecorded rounding (expire_call at) o call r) stored)

  expire_loop-IsValid :
      (at : ℕ → Datetime) (i : ℕ) (os : List PaperOrder) (b : OrderBook)
      → IsValid rounding b
      → All (IsGood rounding) os
      → IsValid rounding (expire_loop rounding at i os b).1
  unfolding expire_loop
  expire_loop-IsValid at i [] b v g = v
  expire_loop-IsValid at i (o ∷ os) b v g = elim (Bool-cases (is_day o.request.time_in_force)) [
    | inr longer ↦ rw (longer, expire_loop) (expire_loop-IsValid at i os b v g.1)
    | inl today ↦ elim (Result-cases (expire_one rounding (at i) o b)) [
      | inl (p, e) ↦
          rw (today, expire_loop, e)
            (expire_loop-IsValid at (suc i) os p.1 (expire_one-IsValid (at i) o b v g.0 e) g.1)
      | inr (x, e) ↦ rw (today, expire_loop, e) v
    ]
  ]

  module _ (fill_ids : ℕ → Text) where
    fill_matched-IsValid :
        (o : PaperOrder) (r : MatchResult) (p : ℤ) (st : EngineState)
        → IsValid rounding st.book
        → IsGood rounding o
        → IsValid rounding (fill_matched rounding fill_ids o r p st).1.book
    unfolding fill_matched
    fill_matched-IsValid o r p st v (w, recorded) =
        let a = fill_args r p (fill_ids st.drawn) in
        elim (Result-cases (apply_fill rounding o a)) [
          | inr (x, e) ↦ rw (e, fill_matched) v
          | inl (o', e) ↦ elim (Result-cases (update o' st.book)) [
            | inr (x, e') ↦ rw (e, fill_matched, e') v
            | inl (b, e') ↦
                rw (e, fill_matched, e')
                  (update-IsValid rounding o' st.book v
                    (run_call-Moves rounding (fill_call a) o e).well_formed
                    (run_call-IsRecorded rounding (fill_call a) o e recorded) e')
          ]
        ]

    settle-IsValid :
        (o : PaperOrder) (r : MatchResult) (st : EngineState)
        → IsValid rounding st.book
        → IsGood rounding o
        → IsValid rounding (settle rounding fill_ids o r st).1.book
    unfolding settle
    settle-IsValid o r st v g = elim (Bool-cases r.matched) [
      | inr unmatched ↦ rw (unmatched, settle) v
      | inl matched ↦ elim (Option-cases r.execution_price) [
        | inl e ↦ rw (matched, settle, e) v
        | inr (p, e) ↦ rw (matched, settle, e) (fill_matched-IsValid o r p st v g)
      ]
    ]

    process_one-IsValid :
        (q : MarketQuote) (o : PaperOrder) (st : EngineState)
        → IsValid rounding st.book
        → IsGood rounding o
        → IsValid rounding (process_one rounding fill_ids q o st).1.book
    unfolding process_one
    process_one-IsValid q o st v g = elim (Result-cases (match_order o q)) [
      | inr (x, e) ↦ rw (e, process_one) v
      | inl (r, e) ↦ rw (e, process_one) (settle-IsValid o r st v g)
    ]

    process_loop-IsValid :
        (q : MarketQuote) (os : List PaperOrder) (st : EngineState)
        → IsValid rounding st.book
        → All (IsGood rounding) os
        → IsValid rounding (process_loop rounding fill_ids q os st).1.book
    unfolding process_loop
    process_loop-IsValid q [] st v g = v
    process_loop-IsValid q (o ∷ os) st v g =
        let one = process_one-IsValid q o st v g.0 in
        let st' = (process_one rounding fill_ids q o st).1 in
        elim (Result-cases (process_one rounding fill_ids q o st).0) [
          | inr (x, e) ↦ rw (e, process_loop) one
          | inl (r, e) ↦ rw (e, process_loop) (process_loop-IsValid q os st' one g.1)
        ]

    -- An order that is submitted is well formed and accounts for its fills.
    abbrev pub Admits : EngineCall → Type 0
    Admits (EngineCall.submit_call o) = IsGood rounding o
    Admits _ = Unit {0}

    quote-IsValid :
        (q : MarketQuote) (st : EngineState)
        → IsValid rounding st.book
        → IsValid rounding (process_quote rounding fill_ids q st).1.book
    unfolding process_quote
    quote-IsValid q st v = elim (Result-cases (open_orders_for_symbol q.symbol st.book)) [
      | inr (x, e) ↦ rw (e, process_quote) v
      | inl (os, e) ↦
          rw (e, process_quote)
            (process_loop-IsValid q os st v (snapshot-IsGood st.book q.symbol v e))
    ]

    submitted-IsValid :
        (o : PaperOrder) (st : EngineState)
        → IsValid rounding st.book
        → IsGood rounding o
        → IsValid rounding (submit_order o st).1.book
    unfolding submit_order
    submitted-IsValid o st v g = elim (Bool-cases (is_accepted o.status)) [
      | inr other ↦ rw (other, submit_order) v
      | inl accepted ↦ elim (Result-cases (submit o st.book)) [
        | inr (x, e) ↦ rw (accepted, submit_order, e) v
        | inl (b, e) ↦
            rw (accepted, submit_order, e) (submit-IsValid rounding o st.book v g.0 g.1 e)
      ]
    ]

    cancelled-IsValid :
        (id : Text) (at : Datetime) (st : EngineState)
        → IsValid rounding st.book
        → IsValid rounding (cancel_stored rounding fill_ids id at st).1.book
    unfolding cancel_stored
    cancelled-IsValid id at st v = elim (Result-cases (cancel rounding id at st.book)) [
      | inr (x, e) ↦ rw (e, cancel_stored) v
      | inl (p, e) ↦ rw (e, cancel_stored) (cancel-IsValid rounding id at st.book v e).3
    ]

    pub after-IsValid :
        (c : EngineCall) (st : EngineState)
        → IsValid rounding st.book
        → Admits c
        → IsValid rounding (after rounding fill_ids c st).book
    unfolding expire_stored expire_day_orders open_orders
    after-IsValid (EngineCall.submit_call o) st v g = submitted-IsValid o st v g
    after-IsValid (EngineCall.quote_call q) st v g = quote-IsValid q st v
    after-IsValid (EngineCall.cancel_call id at) st v g = cancelled-IsValid id at st v
    after-IsValid (EngineCall.expire_call at) st v g =
        expire_loop-IsValid at 0 _ st.book v
          (All-filter (IsGood rounding) _ _ (values-IsGood st.book v))

    -- Whatever calls the engine gets, in whatever order, and whether they return or raise halfway,
    -- its book stays valid: each order is well formed, its fills add up to its filled quantity, and
    -- it stands under its own id, once. The orders submitted must be so themselves.
    pub after_all-IsValid :
        (cs : List EngineCall) (st : EngineState)
        → IsValid rounding st.book
        → All Admits cs
        → IsValid rounding (after_all rounding fill_ids cs st).book
    after_all-IsValid [] st v g = v
    after_all-IsValid (c ∷ cs) st v g =
        after_all-IsValid cs (after rounding fill_ids c st) (after-IsValid c st v g.0) g.1
