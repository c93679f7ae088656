-- ===== src/Witnesses/OfTrading.antt =====
-- The theorems on matching, the order book and the execution engine, at sample values.
use webull_aitrader.Shared.{
  inl, ◌≡◌, ◌≢◌, ◌↔◌, refl, inr, true, none, some, [], ◌∷◌, ◌++◌, map, suc, pos, ◌+ℤ◌, ◌-ℤ◌, ◌*ℤ◌,
  ◌≤◌, ok, codes, if◌then◌else◌, filter, text_eq, strip, lstrip, rstrip, upper, normalize, lookup,
  insert, values, arith,
}
use webull_aitrader.Orders.Model.{
  PaperOrder, remaining_quantity, cancelled, expired, stop, limit, buy,
}
use webull_aitrader.Orders.Lifecycle.{cancel_order, transition_time}
use webull_aitrader.Orders.Validate.{validate_order, check_amounts, check_fills, check_status}
use webull_aitrader.Orders.Inversion.{made_fill, FillGuards}
use webull_aitrader.Orders.Closing.{closed_as}
use webull_aitrader.Matching.{
  MarketQuote, match_order, execution_price, reference_price, slippage_of, MatchResult,
}
use webull_aitrader.Matching.Laws.{
  GoodMatch, CanMatch, Accepts, side_price, match_order-GoodMatch, match_order_decides,
}
use webull_aitrader.Book.{
  OrderBook, submit, update, get, cancel, expire_day_orders, normalize_order_id,
}
use webull_aitrader.Book.Invariant.{IsValid, get-submit, get-update, cancel-IsValid}
use webull_aitrader.Book.Expiry.{is_expiring, expired_at, map_values, expire_day_orders_maps}
use webull_aitrader.Engine.{EngineCall, after_all, fill_args, process_quote, process_one}
use webull_aitrader.Engine.Invariant.{after_all-IsValid}
use webull_aitrader.Engine.Frame.{process_quote-lookup}
use webull_aitrader.Engine.Fills.{match_order-FillGuards, CanFill, process_one_fills}
use webull_aitrader.Witnesses.Samples.{
  rounding_down, clock, request, live, partial, quote, good_match, sample_book, fill_names, state,
}
use webull_aitrader.Witnesses.OfOrders.{live-IsWellFormed, live-FillGuards}

abbrev stop_order : PaperOrder
stop_order = record live {
  request = record request { order_type = stop; limit_price = none; stop_price = some (pos 160) };
}

live_match : match_order live quote ≡ ok good_match
unfolding match_order execution_price reference_price slippage_of normalize strip lstrip rstrip
    upper text_eq ◌-ℤ◌
live_match = refl

match_order-GoodMatch_example : GoodMatch live quote good_match
match_order-GoodMatch_example = match_order-GoodMatch live quote (omega arith) live_match refl

live-CanMatch : CanMatch live quote
unfolding normalize strip lstrip rstrip upper ◌-ℤ◌
live-CanMatch = record { symbols_agree = refl; fillable = refl; positive = omega arith }

stop-CanMatch : CanMatch stop_order quote
unfolding normalize strip lstrip rstrip upper ◌-ℤ◌
stop-CanMatch = record { symbols_agree = refl; fillable = refl; positive = omega arith }

has_volume : quote.available_volume ≢ pos 0
has_volume h = ground (arith, h)

match_order_decides_example :
    (r : MatchResult) × (match_order live quote ≡ ok r)
    × ((r.matched ≡ true) ↔ (
        (quote.available_volume ≢ pos 0)
        × Accepts buy limit (some (pos 200)) (side_price buy (pos 140) (pos 150))))
match_order_decides_example = match_order_decides live quote live-CanMatch (inr refl) (refl, refl)

abbrev no_orders : OrderBook
no_orders = []

submitted : submit live no_orders ≡ ok sample_book
unfolding submit
submitted = refl

updated : update partial sample_book ≡ ok ((codes "o1", partial) ∷ [])
unfolding update get normalize_order_id strip lstrip rstrip text_eq
updated = refl

get-submit_example :
    (lookup (codes "o1") no_orders ≡ none)
    × (sample_book ≡ no_orders ++ (codes "o1", live) ∷ [])
    × (get (codes " o1") sample_book ≡ (
        if text_eq (strip (codes " o1")) (codes "o1")
        then ok live
        else get (codes " o1") no_orders))
get-submit_example = get-submit live (codes " o1") no_orders refl submitted

get-update_example :
    ((c : PaperOrder) × (get (codes "o1") sample_book ≡ ok c)
      × (partial.created_at.instant ≡ c.created_at.instant)
      × (c.updated_at.instant ≤ partial.updated_at.instant))
    × (get (codes "o1") ((codes "o1", partial) ∷ []) ≡ (
        if text_eq (strip (codes "o1")) (codes "o1")
        then ok partial
        else get (codes "o1") sample_book))
get-update_example = get-update partial (codes "o1") sample_book refl updated

sample_book-IsValid : IsValid rounding_down sample_book
sample_book-IsValid =
    (record { key_is_id = refl; well_formed = live-IsWellFormed; recorded = refl }, refl, tt)

cancelled_book :
    cancel rounding_down (codes "o1") (clock 5) sample_book
    ≡ ok (closed_as cancelled (clock 5) live, (codes "o1", closed_as cancelled (clock 5) live) ∷ [])
unfolding cancel get strip text_eq cancel_order transition_time validate_order check_amounts
    check_fills check_status update
cancelled_book = refl

cancel-IsValid_example :
    (c : PaperOrder) × (get (codes "o1") sample_book ≡ ok c)
    × (closed_as cancelled (clock 5) live ≡ closed_as cancelled (clock 5) c)
    × IsValid rounding_down ((codes "o1", closed_as cancelled (clock 5) live) ∷ [])
    × (get (codes "o1") ((codes "o1", closed_as cancelled (clock 5) live) ∷ [])
        ≡ ok (closed_as cancelled (clock 5) live))
cancel-IsValid_example =
    cancel-IsValid rounding_down (codes "o1") (clock 5) sample_book sample_book-IsValid
      cancelled_book

expire_day_orders_maps_example : expire_day_orders rounding_down (λ _. clock 5) sample_book ≡ (
  ok (map (closed_as expired (clock 5)) (filter is_expiring (values sample_book))),
  map_values (expired_at (clock 5)) sample_book,
)
expire_day_orders_maps_example =
    expire_day_orders_maps rounding_down (clock 5) sample_book refl sample_book-IsValid
      (λ e. omega arith, tt)

after_all-IsValid_example :
    IsValid rounding_down
      (after_all rounding_down fill_names
        (EngineCall.quote_call quote ∷ EngineCall.cancel_call (codes "o1") (clock 5) ∷ [])
        state).book
after_all-IsValid_example =
    after_all-IsValid rounding_down fill_names
      (EngineCall.quote_call quote ∷ EngineCall.cancel_call (codes "o1") (clock 5) ∷ []) state
      sample_book-IsValid (tt, (tt, tt))

-- The same quote under another symbol.
abbrev other_quote : MarketQuote
other_quote = record quote { symbol = codes "MSFT" }

process_quote-lookup_example :
    lookup (codes "o1") (process_quote rounding_down fill_names other_quote state).1.book
    ≡ some live
unfolding normalize strip lstrip rstrip upper text_eq
process_quote-lookup_example =
    process_quote-lookup rounding_down fill_names other_quote (codes "o1") state sample_book-IsValid
      refl refl

match_order-FillGuards_example : FillGuards live (fill_args good_match (pos 150) (codes "f0"))
unfolding strip lstrip rstrip
match_order-FillGuards_example =
    match_order-FillGuards live quote (codes "f0") (omega arith) (omega arith) refl (omega arith)
      refl live_match refl refl

live-CanFill : CanFill rounding_down fill_names live quote state good_match (pos 150)
unfolding ◌+ℤ◌ ◌*ℤ◌ ◌-ℤ◌ strip lstrip rstrip text_eq
live-CanFill = record {
  good = (live-IsWellFormed, refl);
  volume_nonneg = omega arith;
  stored = refl;
  matches = live_match;
  matched = refl;
  at_price = refl;
  guards = live-FillGuards;
  average_positive = omega arith;
  average_kept = inl (record { none_yet = refl; nothing_times = refl; nothing_plus = refl });
}

process_one_fills_example :
    (o' : PaperOrder) × (process_one rounding_down fill_names quote live state ≡ (
      ok (record {
        order = o';
        match_result = some good_match;
        fills = made_fill live (fill_args good_match (pos 150) (codes "f0")) ∷ [];
      }),
      record { book = insert (codes "o1") o' sample_book; drawn = suc 0 },
    ))
    × (o'.filled_quantity ≡ pos 0 +ℤ pos 4)
    × (remaining_quantity o' ≡ pos 6)
process_one_fills_example =
    process_one_fills rounding_down fill_names live quote state good_match (pos 150) live-CanFill
