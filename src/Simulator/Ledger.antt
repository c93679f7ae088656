-- ===== src/Simulator/Ledger.antt =====
-- About the dict that app/paper_trading/portfolio.py makes of the positions and changes.
use webull_aitrader.Shared.{
  ◌≡◌, ◌∙◌, refl, sym, ap, Bool, true, false, Option, none, some, List, [], ◌∷◌, Text, text_eq,
  text_eq_iff, All, Dict, lookup, insert, values, lookup-insert, Bool-cases, inl, inr, arith,
  if◌then◌else◌,
}
use webull_aitrader.Simulator.{PaperPosition, by_symbol, pop}
use webull_aitrader.Simulator.Positions.{position_of, Distinct, Keyed}

-- Every key once.
abbrev pub Unique : Dict PaperPosition → Type 0
Unique [] = Unit {0}
Unique (e ∷ d) = (lookup e.0 d ≡ none) × Unique d

pub position_of-values :
    (k : Text) (d : Dict PaperPosition) → Keyed d → position_of k (values d) ≡ lookup k d
unfolding position_of
position_of-values k [] h = refl
position_of-values k (e ∷ d) h = rw (← h.0) (rw (position_of-values k d h.1) refl)

pub Unique-Distinct : (d : Dict PaperPosition) → Keyed d → Unique d → Distinct (values d)
Unique-Distinct [] h u = tt
Unique-Distinct (e ∷ d) h u = (
  position_of-values e.1.symbol d h.1 ∙ ap (λ t. lookup t d) (sym h.0) ∙ u.0,
  Unique-Distinct d h.1 u.1,
)

pub All-insert :
    (P : Text × PaperPosition → Type 0) (k : Text) (v : PaperPosition) (d : Dict PaperPosition)
    → P (k, v)
    → All P d
    → All P (insert k v d)
All-insert P k v [] p h = (p, tt)
All-insert P k v (e ∷ d) p h = elim (Bool-cases (text_eq k e.0)) [
  | inl same ↦ rw same (p, h.1)
  | inr other ↦ rw other (h.0, All-insert P k v d p h.1)
]

pub All-pop :
    (P : Text × PaperPosition → Type 0) (k : Text) (d : Dict PaperPosition)
    → All P d
    → All P (pop k d)
unfolding pop
All-pop P k [] h = tt
All-pop P k (e ∷ d) h = elim (Bool-cases (text_eq k e.0)) [
  | inl same ↦ rw same (All-pop P k d h.1)
  | inr other ↦ rw other (h.0, All-pop P k d h.1)
]

pub lookup-pop :
    (j k : Text) (d : Dict PaperPosition)
    → lookup j (pop k d) ≡ (if text_eq j k then none else lookup j d)
unfolding pop
lookup-pop j k [] = ground arith
lookup-pop j k (e ∷ d) =
    ground (arith, lookup-pop j k d, text_eq_iff j k, text_eq_iff k e.0, text_eq_iff j e.0)

none_both : (b : Bool) → ◌≡◌ {A = Option PaperPosition} (if b then none else none) none
none_both true = refl
none_both false = refl

absent_still :
    (j k : Text) (v : PaperPosition) {o : Option PaperPosition}
    → text_eq k j ≡ false
    → o ≡ none
    → (if text_eq j k then some v else o) ≡ none
absent_still j k v h e = ground (arith, text_eq_iff j k, text_eq_iff k j)

pub Unique-insert :
    (k : Text) (v : PaperPosition) (d : Dict PaperPosition) → Unique d → Unique (insert k v d)
Unique-insert k v [] h = (refl, tt)
Unique-insert k v (e ∷ d) h = elim (Bool-cases (text_eq k e.0)) [
  | inl same ↦ rw same (ap (λ t. lookup t d) ((text_eq_iff k e.0).0 same) ∙ h.0, h.1)
  | inr other ↦
      rw other (lookup-insert e.0 k v d ∙ absent_still e.0 k v other h.0, Unique-insert k v d h.1)
]

pub Unique-pop : (k : Text) (d : Dict PaperPosition) → Unique d → Unique (pop k d)
unfolding pop
Unique-pop k [] h = tt
Unique-pop k (e ∷ d) h = elim (Bool-cases (text_eq k e.0)) [
  | inl same ↦ rw same (Unique-pop k d h.1)
  | inr other ↦
      rw other (lookup-pop e.0 k d ∙ rw h.0 (none_both (text_eq e.0 k)), Unique-pop k d h.1)
]

-- The first of two lookups that finds something.
abbrev pub or_else : Option PaperPosition → Option PaperPosition → Option PaperPosition
or_else none o = o
or_else (some p) o = some p

pub lookup-by_symbol :
    (k : Text) (d : Dict PaperPosition) (ps : List PaperPosition)
    → Distinct ps
    → lookup k (by_symbol d ps) ≡ or_else (position_of k ps) (lookup k d)
unfolding by_symbol position_of
lookup-by_symbol k d [] h = refl
lookup-by_symbol k d (p ∷ ps) h =
    lookup-by_symbol k (insert p.symbol p d) ps h.1
    ∙ rw (lookup-insert k p.symbol p d) (elim (Bool-cases (text_eq k p.symbol)) [
      | inl same ↦
          rw (same, ap (λ t. position_of t ps) ((text_eq_iff k p.symbol).0 same) ∙ h.0) refl
      | inr other ↦ rw other refl
    ])

pub by_symbol-Keyed :
    (d : Dict PaperPosition) (ps : List PaperPosition) → Keyed d → Keyed (by_symbol d ps)
unfolding by_symbol
by_symbol-Keyed d [] h = h
by_symbol-Keyed d (p ∷ ps) h =
    by_symbol-Keyed (insert p.symbol p d) ps
      (All-insert (λ e. e.0 ≡ e.1.symbol) p.symbol p d refl h)

pub by_symbol-Unique :
    (d : Dict PaperPosition) (ps : List PaperPosition) → Unique d → Unique (by_symbol d ps)
unfolding by_symbol
by_symbol-Unique d [] h = h
by_symbol-Unique d (p ∷ ps) h =
    by_symbol-Unique (insert p.symbol p d) ps (Unique-insert p.symbol p d h)

pub by_symbol-All :
    (P : PaperPosition → Type 0) (d : Dict PaperPosition) (ps : List PaperPosition)
    → All (λ e. P e.1) d
    → All P ps
    → All (λ e. P e.1) (by_symbol d ps)
unfolding by_symbol
by_symbol-All P d [] h k = h
by_symbol-All P d (p ∷ ps) h k =
    by_symbol-All P (insert p.symbol p d) ps (All-insert (λ e. P e.1) p.symbol p d k.0 h) k.1

pub All-values :
    (P : PaperPosition → Type 0) (d : Dict PaperPosition) → All (λ e. P e.1) d → All P (values d)
All-values P [] h = tt
All-values P (e ∷ d) h = (h.0, All-values P d h.1)
