-- ===== src/Book/Expiry.antt =====
-- `expire_day_orders` of app/paper_trading/order_book.py: the loop over a snapshot, each round of
-- which writes to the dict.
use mathlib.Core.Path.{subst}
use mathlib.Core.List.{append_assoc}
use webull_aitrader.Shared.{
  Rounding, ◌≡◌, refl, ℕ, suc, ◌≤◌, Bool, true, false, not, ◌&&◌, none, [], ◌∷◌, ◌++◌, map, Text,
  Datetime, text_eq_iff, text_eq_refl, ok, Bool-cases, inl, inr, All, filter, if◌then◌else◌, lookup,
  values, lookup-append_none, insert-append_none, arith, lacks_offset,
}
use webull_aitrader.Orders.Model.{OrderStatus, PaperOrder, expired, is_terminal, is_terminal_status}
use webull_aitrader.Orders.Lifecycle.{is_open}
use webull_aitrader.Orders.WellFormed.{IsWellFormed}
use webull_aitrader.Orders.Closing.{closed_as, closing_total}
use webull_aitrader.Book.{
  OrderBook, get, update, is_day, open_orders, expire_one, expire_loop, expire_day_orders,
}
use webull_aitrader.Book.Invariant.{IsValid}

-- An open order that is good for the day.
abbrev pub is_expiring : PaperOrder → Bool
is_expiring o = not (is_terminal o) && is_day o.request.time_in_force

abbrev pub expired_at : Datetime → PaperOrder → PaperOrder
expired_at t o = if is_expiring o then closed_as expired t o else o

abbrev pub map_values : (PaperOrder → PaperOrder) → OrderBook → OrderBook
map_values f [] = []
map_values f (e ∷ b) = (e.0, f e.1) ∷ map_values f b

-- No expiring order was updated after the time.
abbrev pub IsDue : Datetime → OrderBook → Type 0
IsDue t b = All (λ e. is_expiring e.1 ≡ true → e.1.updated_at.instant ≤ t.instant) b

-- No key of the second book is a key of the first.
abbrev IsApart : OrderBook → OrderBook → Type 0
IsApart pre b = All (λ e. lookup e.0 pre ≡ none) b

IsApart-snoc :
    (pre b : OrderBook) (k : Text) (o : PaperOrder)
    → IsApart pre b
    → lookup k b ≡ none
    → IsApart (pre ++ (k, o) ∷ []) b
IsApart-snoc pre [] k o h n = tt
IsApart-snoc pre (e ∷ b) k o h n = (
  ground (arith, lookup-append_none e.0 pre ((k, o) ∷ []), text_eq_iff e.0 k, text_eq_iff k e.0),
  IsApart-snoc pre b k o h.1 (ground arith),
)

IsApart-nil : (b : OrderBook) → IsApart [] b
IsApart-nil [] = tt
IsApart-nil (e ∷ b) = (refl, IsApart-nil b)

is_open_of_expiring : (s : OrderStatus) → not (is_terminal_status s) ≡ true → is_open s ≡ true
is_open_of_expiring s h = ground arith

module _ (rounding : Rounding) (t : Datetime) (aware : lacks_offset t.zone ≡ false) where
  expire_one-own :
      (pre b : OrderBook) (o : PaperOrder)
      → IsWellFormed rounding o
      → is_expiring o ≡ true
      → o.updated_at.instant ≤ t.instant
      → lookup o.order_id pre ≡ none
      → expire_one rounding t o (pre ++ (o.order_id, o) ∷ b)
        ≡ ok (closed_as expired t o, pre ++ (o.order_id, closed_as expired t o) ∷ b)
  unfolding expire_one update get
  expire_one-own pre b o w e due apart =
      simp
        (
          (closing_total rounding o t w (is_open_of_expiring o.status (ground arith)) aware due).1,
          w.id_stripped,
          w.id_present,
          lookup-append_none o.order_id pre ((o.order_id, o) ∷ b) apart,
          insert-append_none o.order_id (closed_as expired t o) pre ((o.order_id, o) ∷ b) apart,
          text_eq_refl o.order_id,
        )
        (ground arith)

  -- One round replaces the order where it stands.
  expire_one-replaces :
      (pre b : OrderBook) (k : Text) (o : PaperOrder)
      → k ≡ o.order_id
      → IsWellFormed rounding o
      → is_expiring o ≡ true
      → o.updated_at.instant ≤ t.instant
      → lookup k pre ≡ none
      → expire_one rounding t o (pre ++ (k, o) ∷ b)
        ≡ ok (closed_as expired t o, pre ++ (k, closed_as expired t o) ∷ b)
  expire_one-replaces pre b k o key w e due apart =
      rw key (expire_one-own pre b o w e due (rw (← key) apart))

  -- The whole loop from a state: what it returns, and the state that it leaves.
  abbrev Maps : ℕ → OrderBook → OrderBook → OrderBook → Type 0
  Maps i b before after =
      expire_loop rounding (λ _. t) i (filter (λ o. not (is_terminal o)) (values b)) before
      ≡ (ok (map (closed_as expired t) (filter is_expiring (values b))), after)

  Maps-shift :
      (i : ℕ) (pre b c : OrderBook) (k : Text) (x : PaperOrder)
      → Maps i b ((pre ++ (k, x) ∷ []) ++ b) ((pre ++ (k, x) ∷ []) ++ c)
      → Maps i b (pre ++ (k, x) ∷ b) (pre ++ (k, x) ∷ c)
  Maps-shift i pre b c k x h =
      subst (λ s. Maps i b s (pre ++ (k, x) ∷ c)) (append_assoc pre ((k, x) ∷ []) b)
        (subst (λ s. Maps i b ((pre ++ (k, x) ∷ []) ++ b) s) (append_assoc pre ((k, x) ∷ []) c) h)

  loop-Maps :
      (i : ℕ) (pre b : OrderBook)
      → IsValid rounding b
      → IsDue t b
      → IsApart pre b
      → Maps i b (pre ++ b) (pre ++ map_values (expired_at t) b)
  unfolding expire_loop
  loop-Maps i pre [] v d a = refl
  loop-Maps i pre (e ∷ b) v d a =
      let mapped = map_values (expired_at t) b in
      let rest : (j : ℕ) (x : PaperOrder)
          → Maps j b (pre ++ (e.0, x) ∷ b) (pre ++ (e.0, x) ∷ mapped) =
        λ j x.
          Maps-shift j pre b mapped e.0 x
            (loop-Maps j (pre ++ (e.0, x) ∷ []) b v.2 d.1 (IsApart-snoc pre b e.0 x a.1 v.1)) in
      elim (Bool-cases (is_terminal e.1)) [
        | inl over ↦ rw over (rest i e.1)
        | inr live ↦ elim (Bool-cases (is_day e.1.request.time_in_force)) [
          | inl today ↦
              let step =
                expire_one-replaces pre b e.0 e.1 v.0.key_is_id v.0.well_formed
                  (rw (live, today) refl) (d.0 (rw (live, today) refl)) a.0 in
              rw (live, today, expire_loop, step) (rw (rest (suc i) (closed_as expired t e.1)))
          | inr longer ↦ rw (live, longer, expire_loop) (rest i e.1)
        ]
      ]

-- In a valid book no expiring order of which was updated after an aware time, `expire_day_orders`
-- at that time returns. The open DAY orders come back expired, in the order of the book, and the
-- book is left with each of them replaced where it stood and every other order as it was.
pub expire_day_orders_maps :
    (rounding : Rounding) (t : Datetime) (b : OrderBook)
    → lacks_offset t.zone ≡ false
    → IsValid rounding b
    → IsDue t b
    → expire_day_orders rounding (λ _. t) b ≡ (
      ok (map (closed_as expired t) (filter is_expiring (values b))),
      map_values (expired_at t) b,
    )
unfolding expire_day_orders open_orders
expire_day_orders_maps rounding t b aware v d =
    loop-Maps rounding t aware 0 [] b v d (IsApart-nil b)
