-- ===== src/Book/Invariant.antt =====
-- The order book of app/paper_trading/order_book.py: what its operations keep, and what a lookup
-- finds after each.
use mathlib.Core.Path.{subst}
use webull_aitrader.Shared.{
  Rounding, ◌≡◌, refl, sym, ◌∙◌, ap, ℕ, ◌≤◌, Bool, false, not, Option, none, some, [], ◌∷◌, ◌++◌,
  Text, Datetime, text_eq, text_eq_iff, is_empty, strip, is_some, ltb, ◌==◌, ok, err, Bool-cases,
  inl, inr, some-eq, raise_if-eq-ok, >>=-eq-ok, ok-injective, if◌then◌else◌, lookup, insert,
  lookup-insert, arith, insert_new,
}
use webull_aitrader.Orders.Model.{PaperOrder, cancelled}
use webull_aitrader.Orders.Lifecycle.{cancel_order}
use webull_aitrader.Orders.WellFormed.{IsWellFormed}
use webull_aitrader.Orders.Validate.{Checked}
use webull_aitrader.Orders.Fills.{IsRecorded, run_call-IsRecorded}
use webull_aitrader.Orders.Laws.{run_call-Moves, cancel_call}
use webull_aitrader.Orders.Closing.{closed_as, cancel_order-eq-ok}
use webull_aitrader.Book.{OrderBook, submit, get, update, cancel, from_order}

pub from_order-eq-ok : {A : Type 0} {m : Checked A} {a : A} → from_order m ≡ ok a → m ≡ ok a
from_order-eq-ok {m = ok x} h = ap ok (ok-injective h)
from_order-eq-ok {m = err e} h = cc

-- What the dict holds under a key.
pub record IsStored (rounding : Rounding) (k : Text) (o : PaperOrder) : Type 0 where
  pub key_is_id : k ≡ o.order_id
  pub well_formed : IsWellFormed rounding o
  pub recorded : IsRecorded o

-- Every order is well formed, accounts for its fills and stands under its own id, once.
abbrev pub IsValid : Rounding → OrderBook → Type 0
IsValid rounding [] = Unit {0}
IsValid rounding (e ∷ b) = IsStored rounding e.0 e.1 × (lookup e.0 b ≡ none) × IsValid rounding b

pub get-eq-ok :
    (id : Text) (b : OrderBook) {o : PaperOrder}
    → get id b ≡ ok o
    → (is_empty (strip id) ≡ false) × (lookup (strip id) b ≡ some o)
unfolding get
get-eq-ok id b h = ground arith

same_instant : (m n : ℕ) → not (m == n) ≡ false → m ≡ n
same_instant m n h = ground arith

not_earlier : (m n : ℕ) → ltb m n ≡ false → n ≤ m
not_earlier m n h = ground arith

-- An update that succeeds found an older snapshot with the same creation time, and replaces it.
pub update-eq-ok :
    (o : PaperOrder) (b : OrderBook) {b' : OrderBook}
    → update o b ≡ ok b'
    → (c : PaperOrder) × (get o.order_id b ≡ ok c)
      × (o.created_at.instant ≡ c.created_at.instant)
      × (c.updated_at.instant ≤ o.updated_at.instant)
      × (insert o.order_id o b ≡ b')
unfolding update
update-eq-ok o b h =
    let (c, at, rest) = >>=-eq-ok (get o.order_id b) _ h in
    let created = raise_if-eq-ok _ _ _ rest in
    let fresh = raise_if-eq-ok _ _ _ created.1 in
    (c, at, same_instant _ _ created.0, not_earlier _ _ fresh.0, ok-injective fresh.1)

-- An update of a stored order to a later snapshot of it succeeds.
pub update_of_stored :
    (o c : PaperOrder) (b : OrderBook)
    → strip o.order_id ≡ o.order_id
    → is_empty o.order_id ≡ false
    → lookup o.order_id b ≡ some c
    → o.created_at ≡ c.created_at
    → c.updated_at.instant ≤ o.updated_at.instant
    → update o b ≡ ok (insert o.order_id o b)
unfolding update get
update_of_stored o c b stripped present stored created later =
    rw (stripped, present, stored, created) (ground arith)

-- After a submission or an update, `get` finds the order under every spelling of its id and what it
-- found before under every other.
get-insert :
    (o : PaperOrder) (id : Text) (b : OrderBook)
    → is_empty o.order_id ≡ false
    → get id (insert o.order_id o b) ≡ (if text_eq (strip id) o.order_id then ok o else get id b)
unfolding get
get-insert o id b present =
    ground (arith, lookup-insert (strip id) o.order_id o b, text_eq_iff (strip id) o.order_id)

no_entry : {m : Option PaperOrder} → is_some m ≡ false → m ≡ none
no_entry {m = none} h = refl
no_entry {m = some o} h = cc

-- A submission that succeeds had a new id, which goes to the end of the history. After it `get`
-- finds the order under every spelling of its id, and under any other id what it found before.
pub get-submit :
    (o : PaperOrder) (id : Text) (b : OrderBook) {b' : OrderBook}
    → is_empty o.order_id ≡ false
    → submit o b ≡ ok b'
    → (lookup o.order_id b ≡ none)
      × (b' ≡ b ++ (o.order_id, o) ∷ [])
      × (get id b' ≡ (if text_eq (strip id) o.order_id then ok o else get id b))
unfolding submit
get-submit o id b present h =
    let (fresh, same) = raise_if-eq-ok _ _ _ h in
    let absent = no_entry fresh in
    (
      absent,
      sym (ok-injective same) ∙ insert_new o.order_id o b absent,
      ap (get id) (sym (ok-injective same)) ∙ get-insert o id b present,
    )

-- An update that succeeds replaces a stored order of the same creation time and no later update
-- time. After it `get` finds the new snapshot under its id, and under any other id what it found
-- before.
pub get-update :
    (o : PaperOrder) (id : Text) (b : OrderBook) {b' : OrderBook}
    → is_empty o.order_id ≡ false
    → update o b ≡ ok b'
    → ((c : PaperOrder) × (get o.order_id b ≡ ok c)
        × (o.created_at.instant ≡ c.created_at.instant)
        × (c.updated_at.instant ≤ o.updated_at.instant))
      × (get id b' ≡ (if text_eq (strip id) o.order_id then ok o else get id b))
get-update o id b present h =
    let (c, at, created, later, same) = update-eq-ok o b h in
    ((c, at, created, later), ap (get id) (sym same) ∙ get-insert o id b present)

module _ (rounding : Rounding) where
  pub lookup-IsStored :
      (k : Text) (b : OrderBook) {o : PaperOrder}
      → IsValid rounding b
      → lookup k b ≡ some o
      → IsStored rounding k o
  lookup-IsStored k [] v h = cc
  lookup-IsStored k (e ∷ b) {o = o} v h = elim (Bool-cases (text_eq k e.0)) [
    | inl same ↦
        subst (λ j. IsStored rounding j o) (sym ((text_eq_iff k e.0).0 same))
          (subst (IsStored rounding e.0) (some-eq (rw same at h)) v.0)
    | inr other ↦ lookup-IsStored k b v.2 (rw other at h)
  ]

  pub insert-IsValid :
      (o : PaperOrder) (b : OrderBook)
      → IsValid rounding b
      → IsWellFormed rounding o
      → IsRecorded o
      → IsValid rounding (insert o.order_id o b)
  insert-IsValid o [] v w r = (record { key_is_id = refl; well_formed = w; recorded = r }, refl, tt)
  insert-IsValid o (e ∷ b) v w r = elim (Bool-cases (text_eq o.order_id e.0)) [
    | inl same ↦ rw same (
      record { key_is_id = refl; well_formed = w; recorded = r },
      subst (λ j. lookup j b ≡ none) (sym ((text_eq_iff o.order_id e.0).0 same)) v.1,
      v.2,
    )
    | inr other ↦ rw other (
      v.0,
      ground (
        arith,
        lookup-insert e.0 o.order_id o b,
        text_eq_iff e.0 o.order_id,
        text_eq_iff o.order_id e.0,
        v.1,
      ),
      insert-IsValid o b v.2 w r,
    )
  ]

  pub submit-IsValid :
      (o : PaperOrder) (b : OrderBook) {b' : OrderBook}
      → IsValid rounding b
      → IsWellFormed rounding o
      → IsRecorded o
      → submit o b ≡ ok b'
      → IsValid rounding b'
  unfolding submit
  submit-IsValid o b v w r h =
      subst (IsValid rounding) (ok-injective (raise_if-eq-ok _ _ _ h).1) (insert-IsValid o b v w r)

  pub update-IsValid :
      (o : PaperOrder) (b : OrderBook) {b' : OrderBook}
      → IsValid rounding b
      → IsWellFormed rounding o
      → IsRecorded o
      → update o b ≡ ok b'
      → IsValid rounding b'
  update-IsValid o b v w r h =
      subst (IsValid rounding) (update-eq-ok o b h).4 (insert-IsValid o b v w r)

  -- What `get` finds in a valid book is well formed, and stands under its own id.
  pub get-IsStored :
      (id : Text) (b : OrderBook) {o : PaperOrder}
      → IsValid rounding b
      → get id b ≡ ok o
      → IsStored rounding (strip id) o
  get-IsStored id b v h = lookup-IsStored (strip id) b v (get-eq-ok id b h).1

  cancelled_found :
      (id : Text) (at : Datetime) (b : OrderBook) (c : PaperOrder) {b2 b' : OrderBook}
      {t o : PaperOrder}
      → t ≡ o
      → b2 ≡ b'
      → t ≡ closed_as cancelled at c
      → strip id ≡ c.order_id
      → insert t.order_id t b ≡ b2
      → is_empty t.order_id ≡ false
      → get id b' ≡ ok o
  cancelled_found id at b c {t = t} same book shape key stored present =
      let own : strip id ≡ t.order_id = key ∙ ap (λ (x : PaperOrder). x.order_id) (sym shape) in
      ap (get id) (sym (stored ∙ book))
      ∙ get-insert t id b present
      ∙ ap (λ (x : Bool). if x then ok t else get id b) ((text_eq_iff (strip id) t.order_id).1 own)
      ∙ ap ok same

  -- A cancellation that succeeds keeps the book valid. The order that it returns is the stored one
  -- with the status CANCELLED and the time of the call, and it is what `get` finds afterwards.
  pub cancel-IsValid :
      (id : Text) (at : Datetime) (b : OrderBook) {o : PaperOrder} {b' : OrderBook}
      → IsValid rounding b
      → cancel rounding id at b ≡ ok (o, b')
      → (c : PaperOrder) × (get id b ≡ ok c)
        × (o ≡ closed_as cancelled at c)
        × IsValid rounding b'
        × (get id b' ≡ ok o)
  unfolding cancel
  cancel-IsValid id at b {o = o} {b' = b'} v h =
      let (c, found_c, rest) = >>=-eq-ok (get id b) _ h in
      let (t, transition, stored) = >>=-eq-ok (from_order (cancel_order rounding c at)) _ rest in
      let (b2, updated, pair) = >>=-eq-ok (update t b) _ stored in
      let s = get-IsStored id b v found_c in
      let moved = from_order-eq-ok transition in
      let shape = cancel_order-eq-ok rounding c at s.well_formed moved in
      let same : t ≡ o = ap (λ (x : PaperOrder × OrderBook). x.0) (ok-injective pair) in
      let book : b2 ≡ b' = ap (λ (x : PaperOrder × OrderBook). x.1) (ok-injective pair) in
      let w = (run_call-Moves rounding (cancel_call at) c moved).well_formed in
      (
        c,
        found_c,
        sym same ∙ shape,
        subst (IsValid rounding) book (
            update-IsValid t b v w
              (run_call-IsRecorded rounding (cancel_call at) c moved s.recorded) updated),
        cancelled_found id at b c same book shape s.key_is_id (update-eq-ok t b updated).4
            w.id_present,
      )
