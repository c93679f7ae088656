-- ===== src/Compliance/NextDate.antt =====
-- `_date_when_quantity_is_safe` of app/compliance/gfv_validator.py and its sorted
-- loop.
use webull_aitrader.Shared.{
  ◌≡◌, refl, ◌∙◌, ℕ, ◌≤◌, ◌<◌, true, false, not, ◌&&◌, Option, none, some, List, [], ◌∷◌, ℤ, pos,
  ◌+ℤ◌, ◌≤ℤ◌, ◌<ℤ◌, ◌⊎◌, leb, leb_ℤ, int_laws, Bool-cases, inl, inr, filter, All, All-weaken,
  All-filter_kept, arith,
}
use webull_aitrader.Compliance.Calendar.{max_ordinal}
use webull_aitrader.Compliance.Lots.{
  FundingSource, settled_cash, unsettled_sale_proceeds, provisional_deposit, unknown,
  not_funding_source, PurchaseLot,
}
use webull_aitrader.Compliance.Sell.{
  lot_is_safe, safe_source, is_unknown, is_dated, remaining, safe_cash_quantity, waits, date_key,
  insert_by_date, sort_by_date, date_loop, date_when_quantity_is_safe,
}
use webull_aitrader.Compliance.Approval.{IsNonneg}
use webull_aitrader.Compliance.Due.{due, due-sort, safe_later, zero_left, zero_right}

-- What a lot of the sorted list has: a settlement date, no negative quantity.
abbrev IsDated : PurchaseLot → Type 0
IsDated lot = (lot.funding_settlement_date ≡ some (date_key lot)) × IsNonneg lot

abbrev From : ℕ → PurchaseLot → Type 0
From d lot = d ≤ date_key lot

abbrev Sorted : List PurchaseLot → Type 0
Sorted [] = Unit
Sorted (x ∷ xs) = All (From (date_key x)) xs × Sorted xs

All-insert :
    (P : PurchaseLot → Type 0) (x : PurchaseLot) (ys : List PurchaseLot)
    → P x
    → All P ys
    → All P (insert_by_date x ys)
unfolding insert_by_date
All-insert P x [] p h = (p, tt)
All-insert P x (y ∷ ys) p h =
    let rest = All-insert P x ys p h.1 in
    elim (Bool-cases (leb (date_key x) (date_key y))) [
      | inl first ↦ rw first (p, h)
      | inr later ↦ rw later (h.0, rest)
    ]

All-sort : (P : PurchaseLot → Type 0) (xs : List PurchaseLot) → All P xs → All P (sort_by_date xs)
unfolding sort_by_date
All-sort P [] h = tt
All-sort P (x ∷ xs) h = All-insert P x (sort_by_date xs) h.0 (All-sort P xs h.1)

insert_by_date-Sorted :
    (x : PurchaseLot) (ys : List PurchaseLot) → Sorted ys → Sorted (insert_by_date x ys)
unfolding insert_by_date
insert_by_date-Sorted x [] h = (tt, tt)
insert_by_date-Sorted x (y ∷ ys) h =
    let rest = insert_by_date-Sorted x ys h.1 in
    elim (Bool-cases (leb (date_key x) (date_key y))) [
      | inl first ↦ rw first (
        (
          ground (arith, first),
          All-weaken (From (date_key y)) (From (date_key x)) ys (λ z le. ground (arith, le, first))
              h.0,
        ),
        h,
      )
      | inr later ↦ rw later (All-insert (From (date_key y)) x ys (ground (arith, later)) h.0, rest)
    ]

sort_by_date-Sorted : (xs : List PurchaseLot) → Sorted (sort_by_date xs)
unfolding sort_by_date
sort_by_date-Sorted [] = tt
sort_by_date-Sorted (x ∷ xs) = insert_by_date-Sorted x (sort_by_date xs) (sort_by_date-Sorted xs)

-- The first day from `today` on at which a quantity that grows over time reaches the request, or
-- none when it never does.
abbrev pub IsNextDate : ℕ → ℤ → (ℕ → ℤ) → Option ℕ → Type 0
IsNextDate today requested q none = (d : ℕ) → today ≤ d → q d <ℤ requested
IsNextDate today requested q (some e) =
    (today ≤ e) × (requested ≤ℤ q e) × ((d : ℕ) → today ≤ d → d < e → q d <ℤ requested)

le_or_lt : (m d : ℕ) → (m ≤ d) ⊎ (d < m)
le_or_lt m d = omega arith

-- A later start, when the request is not reached before it.
extend :
    (k m : ℕ) (requested : ℤ) (q r : ℕ → ℤ)
    → k ≤ m
    → ((d : ℕ) → m ≤ d → q d ≡ r d)
    → ((d : ℕ) → k ≤ d → d < m → q d <ℤ requested)
    → (o : Option ℕ) → IsNextDate m requested r o
    → IsNextDate k requested q o
extend k m requested q r le same early none h = λ d from. elim (le_or_lt m d) [
  | inl at ↦ rw (same d at) (h d at)
  | inr before ↦ early d from before
]
extend k m requested q r le same early (some e) h = (
  omega (arith, h.0),
  rw (same e h.0) h.1,
  λ d from lt. elim (le_or_lt m d) [
    | inl at ↦ rw (same d at) (h.2 d at lt)
    | inr before ↦ early d from before
  ],
)

due_nonneg : (d : ℕ) (xs : List PurchaseLot) → All IsDated xs → pos 0 ≤ℤ due d xs
due_nonneg d [] h = omega arith
due_nonneg d (x ∷ xs) h =
    let rest = due_nonneg d xs h.1 in
    let own = h.0.1 in
    elim (Bool-cases (leb (date_key x) d)) [
      | inl t ↦ rw t (omega int_laws)
      | inr f ↦ rw f (omega int_laws)
    ]

later_key : (a b : ℕ) → b < a → leb a b ≡ false
later_key a b h = ground arith

due_before : (d m : ℕ) (xs : List PurchaseLot) → d < m → All (From m) xs → due d xs ≡ pos 0
due_before d m [] lt h = refl
due_before d m (x ∷ xs) lt h =
    let rest = due_before d m xs lt h.1 in
    rw (later_key (date_key x) d (omega (arith, h.0, lt)), rest) (zero_left (pos 0))

below_of : (a b : ℤ) → leb_ℤ a b ≡ false → b <ℤ a
below_of a b h = ground arith

within_of : (a b : ℤ) → leb_ℤ a b ≡ true → a ≤ℤ b
within_of a b h = ground arith

at_key : (a b : ℕ) → a ≤ b → leb a b ≡ true
at_key a b h = ground arith

leb_refl : (a : ℕ) → leb a a ≡ true
leb_refl a = ground arith

none_yet :
    (requested available : ℤ) (x : PurchaseLot) (xs : List PurchaseLot)
    → Sorted (x ∷ xs)
    → available <ℤ requested
    → (d : ℕ) → d < date_key x
    → available +ℤ due d (x ∷ xs) <ℤ requested
none_yet requested available x xs s lt d before =
    rw (due_before d (date_key x) (x ∷ xs) before (omega arith, s.0), zero_right available) lt

date_loop-IsNextDate :
    (k : ℕ) (requested available : ℤ) (xs : List PurchaseLot)
    → Sorted xs
    → All IsDated xs
    → All (From k) xs
    → available <ℤ requested
    → IsNextDate k requested (λ d. available +ℤ due d xs) (date_loop requested available xs)
unfolding date_loop
date_loop-IsNextDate k requested available [] s h f lt = λ d from. omega (int_laws, lt)
date_loop-IsNextDate k requested available (x ∷ xs) s h f lt =
    elim (Bool-cases (leb_ℤ requested (available +ℤ remaining x))) [
      | inl hit ↦
          rw (hit, h.0.0)
            (
              f.0,
              rw (leb_refl (date_key x)) (
                  let rest = due_nonneg (date_key x) xs h.1 in
                  omega (int_laws, within_of requested (available +ℤ remaining x) hit)),
              λ d from before. none_yet requested available x xs s lt d before,
            )
      | inr miss ↦ rw miss (
          extend k (date_key x) requested (λ d. available +ℤ due d (x ∷ xs))
            (λ d. (available +ℤ remaining x) +ℤ due d xs) f.0
            (λ d from. rw (at_key (date_key x) d from) (omega int_laws))
            (λ d from before. none_yet requested available x xs s lt d before)
            (date_loop requested (available +ℤ remaining x) xs)
            (date_loop-IsNextDate (date_key x) requested (available +ℤ remaining x) xs s.1 h.1 s.0
              (below_of requested (available +ℤ remaining x) miss)))
    ]

dated_key :
    (f : Option ℕ) → is_dated f ≡ true → f ≡ some (elim f [ none ↦ max_ordinal | some k ↦ k ])
dated_key none h = cc
dated_key (some k) h = refl

source_from :
    (s : FundingSource) (f : Option ℕ) (today : ℕ)
    → (not (safe_source s f today) && not (is_unknown s) && is_dated f) ≡ true
    → today ≤ elim f [ none ↦ max_ordinal | some k ↦ k ]
source_from settled_cash f today h = ground (arith, h)
source_from unknown f today h = ground (arith, h)
source_from unsettled_sale_proceeds none today h = ground (arith, h)
source_from unsettled_sale_proceeds (some k) today h = ground (arith, h)
source_from provisional_deposit none today h = ground (arith, h)
source_from not_funding_source none today h = ground (arith, h)
source_from provisional_deposit (some k) today h = ground (arith, h)
source_from not_funding_source (some k) today h = ground (arith, h)

waits-IsDated : (today : ℕ) (x : PurchaseLot) → IsNonneg x → waits today x ≡ true → IsDated x
waits-IsDated today x good w = (dated_key x.funding_settlement_date (ground (arith, w)), good)

waits-From : (today : ℕ) (x : PurchaseLot) → IsNonneg x → waits today x ≡ true → From today x
unfolding lot_is_safe
waits-From today x good w = source_from x.funding_source x.funding_settlement_date today w

-- `_date_when_quantity_is_safe` returns the first day, from the current one on, on which the safe
-- quantity of the lots reaches the requested one, and nothing when there is no such day; no lot may
-- hold a negative quantity.
pub date_when_quantity_is_safe-IsNextDate :
    (lots : List PurchaseLot) (today : ℕ) (requested : ℤ)
    → All IsNonneg lots
    → IsNextDate today requested
        (safe_cash_quantity lots)
        (date_when_quantity_is_safe lots today requested)
unfolding date_when_quantity_is_safe
date_when_quantity_is_safe-IsNextDate lots today requested good =
    elim (Bool-cases (leb_ℤ requested (safe_cash_quantity lots today))) [
      | inl now ↦ rw now (omega arith, ground (arith, now), λ d from lt. omega (arith, from, lt))
      | inr not_yet ↦ rw not_yet (
          extend today today requested (safe_cash_quantity lots)
            (λ d. safe_cash_quantity lots today +ℤ due d (sort_by_date (filter (waits today) lots)))
            (omega arith)
            (λ d from.
              safe_later today d lots from ∙ rw (due-sort d (filter (waits today) lots)) refl)
            (λ d from before. omega (arith, from, before))
            (date_loop requested (safe_cash_quantity lots today)
              (sort_by_date (filter (waits today) lots)))
            (date_loop-IsNextDate today requested (safe_cash_quantity lots today)
              (sort_by_date (filter (waits today) lots))
              (sort_by_date-Sorted (filter (waits today) lots))
              (All-sort IsDated _ (
                All-filter_kept IsDated (waits today) lots (
                  All-weaken IsNonneg (λ x. waits today x ≡ true → IsDated x) lots
                    (waits-IsDated today) good)))
              (All-sort (From today) _ (
                All-filter_kept (From today) (waits today) lots (
                  All-weaken IsNonneg (λ x. waits today x ≡ true → From today x) lots
                    (waits-From today) good)))
              (below_of requested (safe_cash_quantity lots today) not_yet)))
    ]
