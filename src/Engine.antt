-- ===== src/Engine.antt =====
-- app/paper_trading/execution_engine.py: the engine that runs quotes against the order book. The
-- engine's state is its book and the number of fill ids drawn from the `fill_id_factory`. A method
-- that raises halfway leaves the book as the rounds before have made it.
pub mod Invariant
pub mod Frame
pub mod Fills
use webull_aitrader.Shared.{
  Rounding, ℕ, suc, Bool, true, false, Option, none, some, List, [], ◌∷◌, map, Text, Datetime, ℤ,
  pos, Result, ok, err, ◌>>=◌, if◌then◌else◌,
}
use webull_aitrader.Orders.Model.{OrderStatus, accepted, Fill, PaperOrder, OrderError}
use webull_aitrader.Orders.Lifecycle.{FillArgs, apply_fill, draws_fill_id}
use webull_aitrader.Matching.{MatchError, MarketQuote, MatchResult, match_order}
use webull_aitrader.Book.{
  BookError, OrderBook, submit, update, open_orders_for_symbol, cancel, expire_day_orders,
}

pub data EngineError : Type 0 where
  -- ExecutionEngineError
  not_accepted no_execution_price : EngineError
  -- what the parts raise
  matching : MatchError → EngineError
  order : OrderError → EngineError
  book : BookError → EngineError

-- `ExecutionReport`; its `message` is left out.
pub record ExecutionReport : Type 0 where
  pub order : PaperOrder
  pub match_result : Option MatchResult
  pub fills : List Fill

pub record EngineState : Type 0 where
  pub book : OrderBook
  pub drawn : ℕ

-- What a method returns or raises, and the state that it leaves.
abbrev pub Run : Type 0 → Type 0
Run A = Result EngineError A × EngineState

abbrev pub plain_report : PaperOrder → ExecutionReport
plain_report o = record { order = o; match_result = none; fills = [] }

abbrev pub is_accepted : OrderStatus → Bool
is_accepted accepted = true
is_accepted _ = false

-- `submit`
unfoldable pub submit_order : PaperOrder → EngineState → Run ExecutionReport
submit_order o st = elim (is_accepted o.status) [
  | false ↦ (err not_accepted, st)
  | true ↦ elim (submit o st.book) [
    | err e ↦ (err (book e), st)
    | ok b ↦ (ok (plain_report o), record st { book = b })
  ]
]

-- `fills[-1:]`
abbrev pub last_fill : List Fill → List Fill
last_fill [] = []
last_fill (f ∷ []) = f ∷ []
last_fill (f ∷ g ∷ fs) = last_fill (g ∷ fs)

-- The arguments with which the engine calls `apply_fill` for a match at a price.
abbrev pub fill_args : MatchResult → ℤ → Text → FillArgs
fill_args r price id = record {
  quantity = r.filled_quantity;
  price = price;
  timestamp = r.timestamp;
  commission = pos 0;
  slippage = r.slippage;
  venue = none;
  liquidity_flag = r.liquidity_flag;
  fill_id = id;
}

-- A call on the engine.
pub data EngineCall : Type 0 where
  submit_call : PaperOrder → EngineCall
  quote_call : MarketQuote → EngineCall
  cancel_call : Text → Datetime → EngineCall
  expire_call : (ℕ → Datetime) → EngineCall

module _ (rounding : Rounding) (fill_ids : ℕ → Text) where
  -- The part of a round below the match: the fill, and the update of the book.
  unfoldable pub fill_matched : PaperOrder → MatchResult → ℤ → EngineState → Run ExecutionReport
  fill_matched o r price st = elim (apply_fill rounding o (fill_args r price (fill_ids st.drawn))) [
    | err e ↦ (
      err (order e),
      record st {
        drawn =
            if draws_fill_id o (fill_args r price (fill_ids st.drawn))
            then suc st.drawn
            else st.drawn;
      },
    )
    | ok updated ↦ elim (update updated st.book) [
      | err e ↦ (err (book e), record st { drawn = suc st.drawn })
      | ok b ↦ (
        ok (record { order = updated; match_result = some r; fills = last_fill updated.fills }),
        record { book = b; drawn = suc st.drawn },
      )
    ]
  ]

  unfoldable pub settle : PaperOrder → MatchResult → EngineState → Run ExecutionReport
  settle o r st = elim r.matched [
    | false ↦ (ok (record { order = o; match_result = some r; fills = [] }), st)
    | true ↦ elim r.execution_price [
      | none ↦ (err no_execution_price, st)
      | some price ↦ fill_matched o r price st
    ]
  ]

  -- One round of `process_quote`.
  unfoldable pub process_one : MarketQuote → PaperOrder → EngineState → Run ExecutionReport
  process_one q o st = elim (match_order o q) [
    | err e ↦ (err (matching e), st)
    | ok r ↦ settle o r st
  ]

  -- The loop of `process_quote` over the snapshot of the open orders of the symbol.
  unfoldable pub process_loop :
      MarketQuote → List PaperOrder → EngineState → Run (List ExecutionReport)
  process_loop q [] st = (ok [], st)
  process_loop q (o ∷ os) st =
      let (r, st') = process_one q o st in
      elim r [
        | err e ↦ (err e, st')
        | ok report ↦
            let (rest, st'') = process_loop q os st' in (rest >>= λ rs. ok (report ∷ rs), st'')
      ]

  unfoldable pub process_quote : MarketQuote → EngineState → Run (List ExecutionReport)
  process_quote q st = elim (open_orders_for_symbol q.symbol st.book) [
    | err e ↦ (err (book e), st)
    | ok os ↦ process_loop q os st
  ]

  -- `cancel`
  unfoldable pub cancel_stored : Text → Datetime → EngineState → Run ExecutionReport
  cancel_stored id at st = elim (cancel rounding id at st.book) [
    | err e ↦ (err (book e), st)
    | ok (o, b) ↦ (ok (plain_report o), record st { book = b })
  ]

  abbrev pub expired_reports :
      Result BookError (List PaperOrder) → Result EngineError (List ExecutionReport)
  expired_reports (ok os) = ok (map plain_report os)
  expired_reports (err e) = err (book e)

  -- `expire_day_orders`
  unfoldable pub expire_stored : (ℕ → Datetime) → EngineState → Run (List ExecutionReport)
  expire_stored at st =
      let (r, b) = expire_day_orders rounding at st.book in
      (expired_reports r, record st { book = b })

  -- The state after a call, whether it returned or raised.
  abbrev pub after : EngineCall → EngineState → EngineState
  after (submit_call o) st = (submit_order o st).1
  after (quote_call q) st = (process_quote q st).1
  after (cancel_call id at) st = (cancel_stored id at st).1
  after (expire_call at) st = (expire_stored at st).1

  abbrev pub after_all : List EngineCall → EngineState → EngineState
  after_all [] st = st
  after_all (c ∷ cs) st = after_all cs (after c st)
