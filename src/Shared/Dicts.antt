-- ===== src/Shared/Dicts.antt =====
-- A Python dict with text keys, as its entries in insertion order.
use mathlib.Core.Path.{◌≡◌, refl}
use mathlib.Core.Option.{Option, none, some}
use mathlib.Core.List.{List, [], ◌∷◌, ◌++◌}
use native.Mathlib.Omega.{arith}
use webull_aitrader.Shared.Tests.{if◌then◌else◌}
use webull_aitrader.Shared.Texts.{Text, text_eq, text_eq_iff}

abbrev pub Dict {ℓ} : Type ℓ → Type ℓ
Dict V = List (Text × V)

module _ {ℓ} {V : Type ℓ} where
  abbrev pub lookup : Text → Dict V → Option V
  lookup k [] = none
  lookup k (e ∷ d) = if text_eq k e.0 then some e.1 else lookup k d

  -- `d[k] = v`: an old key keeps its place.
  abbrev pub insert : Text → V → Dict V → Dict V
  insert k v [] = (k, v) ∷ []
  insert k v (e ∷ d) = if text_eq k e.0 then (k, v) ∷ d else e ∷ insert k v d

  -- `d.values()`
  abbrev pub values : Dict V → List V
  values [] = []
  values (e ∷ d) = e.1 ∷ values d

  pub lookup-insert :
      (j k : Text) (v : V) (d : Dict V)
      → lookup j (insert k v d) ≡ (if text_eq j k then some v else lookup j d)
  lookup-insert j k v [] = refl
  lookup-insert j k v (e ∷ d) =
      ground (arith, text_eq_iff j k, text_eq_iff k e.0, text_eq_iff j e.0, lookup-insert j k v d)

  -- A new key goes to the end.
  pub insert_new :
      (k : Text) (v : V) (d : Dict V) → lookup k d ≡ none → insert k v d ≡ d ++ (k, v) ∷ []
  insert_new k v [] h = refl
  insert_new k v (e ∷ d) h = ground (arith, insert_new k v d)

  -- Past entries without the key, both operations look at the rest.
  pub lookup-append_none :
      (k : Text) (d e : Dict V) → lookup k d ≡ none → lookup k (d ++ e) ≡ lookup k e
  lookup-append_none k [] e h = refl
  lookup-append_none k (x ∷ d) e h = ground (arith, lookup-append_none k d e)

  pub insert-append_none :
      (k : Text) (v : V) (d e : Dict V)
      → lookup k d ≡ none
      → insert k v (d ++ e) ≡ d ++ insert k v e
  insert-append_none k v [] e h = refl
  insert-append_none k v (x ∷ d) e h = ground (arith, insert-append_none k v d e)
