-- ===== src/Engine/Fills.antt =====
-- One round of `process_quote` in app/paper_trading/execution_engine.py: what a match hands to
-- `apply_fill`, and when the round fills the order.
use webull_aitrader.Shared.{
  Rounding, ◌≡◌, refl, sym, ◌∙◌, ap, ℕ, suc, ◌≤◌, true, false, some, List, [], ◌∷◌, ◌++◌, Text, ℤ,
  pos, ◌≤ℤ◌, ◌<ℤ◌, ◌+ℤ◌, strip, is_empty, some-eq, lacks_offset, ok, lookup, insert, arith,
  is_ok→ok,
}
use webull_aitrader.Orders.Model.{PaperOrder, Fill, remaining_quantity}
use webull_aitrader.Orders.Lifecycle.{apply_fill}
use webull_aitrader.Orders.Inversion.{FillGuards, made_fill}
use webull_aitrader.Orders.Fills.{running_average, apply_fill_iff, apply_fill_accounts}
use webull_aitrader.Orders.FirstFill.{KeepsAverage, averages_of_KeepsAverage}
use webull_aitrader.Orders.Laws.{run_call-Moves, fill_call}
use webull_aitrader.Book.Invariant.{update_of_stored}
use webull_aitrader.Matching.{MarketQuote, MatchResult, match_order}
use webull_aitrader.Matching.Laws.{side_price, match_order-GoodMatch}
use webull_aitrader.Book.{OrderBook, update}
use webull_aitrader.Engine.{
  EngineState, ExecutionReport, Run, fill_args, fill_matched, settle, process_one, last_fill,
}
use webull_aitrader.Engine.Invariant.{IsGood}

-- A match whose price is the one that the result carries meets every guard of `apply_fill`, if the
-- quote's timestamp has an offset and is not before the order's last update, the market price is
-- positive and the fill id is not blank.
pub match_order-FillGuards :
    (o : PaperOrder) (q : MarketQuote) (id : Text) {r : MatchResult} {price : ℤ}
    → pos 0 ≤ℤ q.available_volume
    → pos 0 <ℤ side_price o.request.side q.bid_price q.ask_price
    → lacks_offset q.timestamp.zone ≡ false
    → o.updated_at.instant ≤ q.timestamp.instant
    → is_empty (strip id) ≡ false
    → match_order o q ≡ ok r
    → r.matched ≡ true
    → r.execution_price ≡ some price
    → FillGuards o (fill_args r price id)
match_order-FillGuards o q id {price = price} volume positive aware later present h m e =
    let good = match_order-GoodMatch o q volume h m in
    let at_market : price ≡ side_price o.request.side q.bid_price q.ask_price =
      some-eq (sym e ∙ good.price_is_market) in
    record {
      fillable = good.fillable;
      quantity_positive = good.quantity_positive;
      price_positive = rw at_market positive;
      within_remaining = good.within_remaining;
      commission_nonneg = omega arith;
      time_aware = rw good.same_time aware;
      time_after = rw good.same_time later;
      id_present = present;
    }

last_fill-snoc : (fs : List Fill) (f : Fill) → last_fill (fs ++ f ∷ []) ≡ f ∷ []
last_fill-snoc [] f = refl
last_fill-snoc (g ∷ []) f = refl
last_fill-snoc (g ∷ h ∷ fs) f = last_fill-snoc (h ∷ fs) f

-- Two runs that differ in the key and the fills as they are written.
report_path :
    (o' : PaperOrder) (r : MatchResult) (st : EngineState) {k : Text} {fs : List Fill}
    → o'.order_id ≡ k
    → last_fill o'.fills ≡ fs
    → ◌≡◌ {A = Run ExecutionReport}
        (
          ok (record { order = o'; match_result = some r; fills = last_fill o'.fills }),
          record { book = insert o'.order_id o' st.book; drawn = suc st.drawn },
        )
        (
          ok (record { order = o'; match_result = some r; fills = fs }),
          record { book = insert k o' st.book; drawn = suc st.drawn },
        )
report_path o' r st key fills = λ i. (
  ok (record { order = o'; match_result = some r; fills = fills i }),
  record { book = insert (key i) o' st.book; drawn = suc st.drawn },
)

module _ (rounding : Rounding) (fill_ids : ℕ → Text) where
  -- A stored order, a match at a price, and a fill that is the order's first or at which the running
  -- average is the one of all fills: all that a round needs to fill.
  pub record CanFill (o : PaperOrder) (q : MarketQuote) (st : EngineState) (r : MatchResult)
      (price : ℤ) : Type 0 where
    pub good : IsGood rounding o
    pub volume_nonneg : pos 0 ≤ℤ q.available_volume
    pub stored : lookup o.order_id st.book ≡ some o
    pub matches : match_order o q ≡ ok r
    pub matched : r.matched ≡ true
    pub at_price : r.execution_price ≡ some price
    pub guards : FillGuards o (fill_args r price (fill_ids st.drawn))
    pub average_positive :
        pos 0 <ℤ running_average rounding o (fill_args r price (fill_ids st.drawn))
    pub average_kept : KeepsAverage rounding o (fill_args r price (fill_ids st.drawn))

  -- The round, once each of its calls has returned.
  process_one_steps :
      (o : PaperOrder) (q : MarketQuote) (st : EngineState) (r : MatchResult) (price : ℤ)
      (o' : PaperOrder) (b : OrderBook)
      → match_order o q ≡ ok r
      → r.matched ≡ true
      → r.execution_price ≡ some price
      → apply_fill rounding o (fill_args r price (fill_ids st.drawn)) ≡ ok o'
      → update o' st.book ≡ ok b
      → process_one rounding fill_ids q o st ≡ (
        ok (record { order = o'; match_result = some r; fills = last_fill o'.fills }),
        record { book = b; drawn = suc st.drawn },
      )
  unfolding process_one settle fill_matched
  process_one_steps o q st r price o' b m y p a u = ground arith

  -- A round on a stored, well-formed order that matches the quote at a price, whose fill passes the
  -- guards and gives a positive average, and is the first fill or one at which the two ways to
  -- compute the average agree, does fill. It reports the match and the one new fill, the order has
  -- gained the matched quantity, and the book now holds it under its id and draws the next fill id.
  pub process_one_fills :
      (o : PaperOrder) (q : MarketQuote) (st : EngineState) (r : MatchResult) (price : ℤ)
      → CanFill o q st r price
      → (o' : PaperOrder) × (process_one rounding fill_ids q o st ≡ (
        ok (record {
          order = o';
          match_result = some r;
          fills = made_fill o (fill_args r price (fill_ids st.drawn)) ∷ [];
        }),
        record { book = insert o.order_id o' st.book; drawn = suc st.drawn },
      ))
        × (o'.filled_quantity ≡ o.filled_quantity +ℤ r.filled_quantity)
        × (remaining_quantity o' ≡ r.remaining)
  process_one_fills o q st r price c =
      let a = fill_args r price (fill_ids st.drawn) in
      let (o', filled_o) = is_ok→ok (apply_fill rounding o a) (
        (apply_fill_iff rounding o a c.good.0 c.good.1 c.guards c.average_positive).1
          (averages_of_KeepsAverage rounding o a c.good.0 c.good.1 c.average_kept)) in
      let (total, left, fills, _) = apply_fill_accounts rounding o a filled_o in
      let m = run_call-Moves rounding (fill_call a) o filled_o in
      let own : o'.order_id ≡ o.order_id = m.same_id ∙ c.good.0.id_stripped in
      let stored_o =
        update_of_stored o' o st.book m.well_formed.id_stripped m.well_formed.id_present
          (rw own c.stored) m.same_created m.time_forward in
      (
        o',
        process_one_steps o q st r price o' (insert o'.order_id o' st.book) c.matches c.matched
              c.at_price filled_o stored_o
            ∙ report_path o' r st own (ap last_fill fills ∙ last_fill-snoc o.fills (made_fill o a)),
        total,
        left ∙ sym (match_order-GoodMatch o q c.volume_nonneg c.matches c.matched).left_over,
      )
