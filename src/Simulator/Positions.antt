-- ===== src/Simulator/Positions.antt =====
-- About the dict of positions in app/paper_trading/portfolio.py: what it holds under a symbol, and
-- the order in which the positions are put back.
use webull_aitrader.Shared.{
  ◌≡◌, ◌∙◌, refl, Bool, true, false, Option, none, some, List, [], ◌∷◌, Text, text_eq, text_eq_iff,
  All, All-weaken, Dict, Bool-cases, inl, inr, arith, if◌then◌else◌,
}
use mathlib.Core.Path.{subst}
use webull_aitrader.Simulator.{PaperPosition, text_ltb, insert_sorted, sort_positions}

-- The position under a symbol.
unfoldable pub position_of : Text → List PaperPosition → Option PaperPosition
position_of k [] = none
position_of k (p ∷ ps) = if text_eq k p.symbol then some p else position_of k ps

-- Every symbol once.
abbrev pub Distinct : List PaperPosition → Type 0
Distinct [] = Unit {0}
Distinct (p ∷ ps) = (position_of p.symbol ps ≡ none) × Distinct ps

-- Every position before those of greater symbols, and no symbol twice.
abbrev pub Ascending : List PaperPosition → Type 0
Ascending [] = Unit {0}
Ascending (p ∷ ps) = All (λ q. text_ltb p.symbol q.symbol ≡ true) ps × Ascending ps

-- Every entry under the symbol of its position.
abbrev pub Keyed : Dict PaperPosition → Type 0
Keyed = All (λ e. e.0 ≡ e.1.symbol)

text_ltb_irrefl : (t : Text) → text_ltb t t ≡ false
unfolding text_ltb
text_ltb_irrefl [] = refl
text_ltb_irrefl (c ∷ t) = ground (arith, text_ltb_irrefl t)

absurd_text : (t : Text) {b : Bool} → text_ltb t t ≡ true → b ≡ false
absurd_text t h = ground (arith, text_ltb_irrefl t)

text_ltb_trans : (t u v : Text) → text_ltb t u ≡ true → text_ltb u v ≡ true → text_ltb t v ≡ true
unfolding text_ltb
text_ltb_trans [] [] v h k = ground arith
text_ltb_trans [] (d ∷ u) [] h k = ground arith
text_ltb_trans [] (d ∷ u) (e ∷ v) h k = ground arith
text_ltb_trans (c ∷ t) [] v h k = ground arith
text_ltb_trans (c ∷ t) (d ∷ u) [] h k = ground arith
text_ltb_trans (c ∷ t) (d ∷ u) (e ∷ v) h k = ground (arith, text_ltb_trans t u v)

-- The greater of two different texts.
text_ltb_total : (t u : Text) → text_ltb t u ≡ false → text_eq u t ≡ false → text_ltb u t ≡ true
unfolding text_ltb text_eq
text_ltb_total [] [] h k = ground arith
text_ltb_total [] (d ∷ u) h k = ground arith
text_ltb_total (c ∷ t) [] h k = refl
text_ltb_total (c ∷ t) (d ∷ u) h k = ground (arith, text_ltb_total t u)

text_eq_sym : (t u : Text) → text_eq t u ≡ text_eq u t
text_eq_sym t u = ground (arith, text_eq_iff t u, text_eq_iff u t)

position_of-insert_sorted :
    (k : Text) (p : PaperPosition) (ps : List PaperPosition)
    → position_of p.symbol ps ≡ none
    → position_of k (insert_sorted p ps) ≡ (if text_eq k p.symbol then some p else position_of k ps)
unfolding position_of insert_sorted
position_of-insert_sorted k p [] h = refl
position_of-insert_sorted k p (q ∷ qs) h = ground (
  arith,
  position_of-insert_sorted k p qs,
  text_eq_iff k p.symbol,
  text_eq_iff k q.symbol,
  text_eq_iff p.symbol q.symbol,
)

found_rest :
    (b : Bool) (p : PaperPosition) {o o' : Option PaperPosition}
    → o ≡ o'
    → (if b then some p else o) ≡ (if b then some p else o')
found_rest b p e = rw e refl

pub position_of-sort_positions :
    (k : Text) (ps : List PaperPosition)
    → Distinct ps
    → position_of k (sort_positions ps) ≡ position_of k ps
unfolding sort_positions position_of
position_of-sort_positions k [] h = refl
position_of-sort_positions k (p ∷ ps) h =
    position_of-insert_sorted k p (sort_positions ps)
      (position_of-sort_positions p.symbol ps h.1 ∙ h.0)
    ∙ found_rest (text_eq k p.symbol) p (position_of-sort_positions k ps h.1)

All-insert_sorted :
    (P : PaperPosition → Type 0) (p : PaperPosition) (ps : List PaperPosition)
    → P p
    → All P ps
    → All P (insert_sorted p ps)
unfolding insert_sorted
All-insert_sorted P p [] h k = (h, tt)
All-insert_sorted P p (q ∷ qs) h k = elim (Bool-cases (text_ltb q.symbol p.symbol)) [
  | inl later ↦ rw later (k.0, All-insert_sorted P p qs h k.1)
  | inr sooner ↦ rw sooner (h, k)
]

pub All-sort_positions :
    (P : PaperPosition → Type 0) (ps : List PaperPosition) → All P ps → All P (sort_positions ps)
unfolding sort_positions
All-sort_positions P [] h = tt
All-sort_positions P (p ∷ ps) h =
    All-insert_sorted P p (sort_positions ps) h.0 (All-sort_positions P ps h.1)

not_the_first :
    (k : Text) (q : PaperPosition) (qs : List PaperPosition)
    → position_of k (q ∷ qs) ≡ none
    → (text_eq k q.symbol ≡ false) × (position_of k qs ≡ none)
unfolding position_of
not_the_first k q qs h = ground arith

insert_sorted-Ascending :
    (p : PaperPosition) (ps : List PaperPosition)
    → position_of p.symbol ps ≡ none
    → Ascending ps
    → Ascending (insert_sorted p ps)
unfolding insert_sorted
insert_sorted-Ascending p [] new h = (tt, tt)
insert_sorted-Ascending p (q ∷ qs) new h =
    let others = not_the_first p.symbol q qs new in
    elim (Bool-cases (text_ltb q.symbol p.symbol)) [
      | inl later ↦ rw later (
        All-insert_sorted (λ r. text_ltb q.symbol r.symbol ≡ true) p qs later h.0,
        insert_sorted-Ascending p qs others.1 h.1,
      )
      | inr sooner ↦
          let before = text_ltb_total q.symbol p.symbol sooner others.0 in
          rw sooner (
            (
              before,
              All-weaken (λ r. text_ltb q.symbol r.symbol ≡ true)
                  (λ r. text_ltb p.symbol r.symbol ≡ true) qs
                  (λ r after. text_ltb_trans p.symbol q.symbol r.symbol before after) h.0,
            ),
            h,
          )
    ]

pub sort_positions-Ascending :
    (ps : List PaperPosition) → Distinct ps → Ascending (sort_positions ps)
unfolding sort_positions
sort_positions-Ascending [] h = tt
sort_positions-Ascending (p ∷ ps) h =
    insert_sorted-Ascending p (sort_positions ps) (position_of-sort_positions p.symbol ps h.1 ∙ h.0)
      (sort_positions-Ascending ps h.1)

less-text_eq : (t u : Text) → text_ltb t u ≡ true → text_eq t u ≡ false
less-text_eq t u h = elim (Bool-cases (text_eq t u)) [
  | inl same ↦
      let e = (text_eq_iff t u).0 same in
      let loop : text_ltb u u ≡ true = subst (λ x. text_ltb x u ≡ true) e h in absurd_text u loop
  | inr other ↦ other
]

greater-position_of :
    (k : Text) (ps : List PaperPosition)
    → All (λ q. text_ltb k q.symbol ≡ true) ps
    → position_of k ps ≡ none
unfolding position_of
greater-position_of k [] h = refl
greater-position_of k (q ∷ qs) h = rw (less-text_eq k q.symbol h.0) (greater-position_of k qs h.1)

pub Ascending-Distinct : (ps : List PaperPosition) → Ascending ps → Distinct ps
Ascending-Distinct [] h = tt
Ascending-Distinct (p ∷ ps) h = (greater-position_of p.symbol ps h.0, Ascending-Distinct ps h.1)
