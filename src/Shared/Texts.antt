-- ===== src/Shared/Texts.antt =====
-- Python's `str` as its list of code points, with `strip`, `upper` and equality. `upper` maps the
-- ASCII letters, so texts with other cased letters are outside the model.
use Prim.Native.Nat.{ℕ, ◌-◌}
use mathlib.Core.Path.{◌≡◌, refl, ap, ◌∙◌}
use mathlib.Core.Logic.{◌↔◌, inl, inr}
use mathlib.Core.Bool.{Bool, true, false, ◌&&◌, ◌||◌}
use mathlib.Core.List.{List, [], ◌∷◌}
use Prim.Native.Char.{code}
use Prim.Native.String.{String}
use native.Mathlib.Omega.{arith}
use webull_aitrader.Shared.Tests.{leb, ◌==◌, if◌then◌else◌, Bool-cases}

abbrev pub Text : Type 0
Text = List ℕ

-- A literal of the source as a text.
abbrev pub codes : String → Text
codes String.[] = []
codes (String.◌∷◌ c s) = code c ∷ codes s

-- `str.isspace` of one character.
pub is_space : ℕ → Bool
is_space c =
    (leb 9 c && leb c 13)
    || (leb 28 c && leb c 32)
    || (c == 133)
    || (c == 160)
    || (c == 5760)
    || (leb 8192 c && leb c 8202)
    || (c == 8232)
    || (c == 8233)
    || (c == 8239)
    || (c == 8287)
    || (c == 12288)

pub upper_char : ℕ → ℕ
upper_char c = if leb 97 c && leb c 122 then c - 32 else c

abbrev pub is_empty : Text → Bool
is_empty [] = true
is_empty (c ∷ t) = false

unfoldable pub lstrip : Text → Text
unfolding is_space
lstrip [] = []
lstrip (c ∷ t) = if is_space c then lstrip t else c ∷ t

unfoldable pub rstrip : Text → Text
unfolding is_space
rstrip [] = []
rstrip (c ∷ t) = let r = rstrip t in if is_space c && is_empty r then [] else c ∷ r

-- `t.strip()`
unfoldable pub strip : Text → Text
unfolding lstrip rstrip
strip t = lstrip (rstrip t)

-- `t.upper()`
unfoldable pub upper : Text → Text
unfolding upper_char
upper [] = []
upper (c ∷ t) = upper_char c ∷ upper t

-- `t.strip().upper()`
unfoldable pub normalize : Text → Text
unfolding strip upper
normalize t = upper (strip t)

unfoldable pub text_eq : Text → Text → Bool
text_eq [] [] = true
text_eq [] (d ∷ u) = false
text_eq (c ∷ t) [] = false
text_eq (c ∷ t) (d ∷ u) = c == d && text_eq t u

pub text_eq_iff : (t u : Text) → (text_eq t u ≡ true) ↔ (t ≡ u)
unfolding text_eq
text_eq_iff [] [] = ground arith
text_eq_iff [] (d ∷ u) = ground arith
text_eq_iff (c ∷ t) [] = ground arith
text_eq_iff (c ∷ t) (d ∷ u) = ground (arith, text_eq_iff t u)

pub text_eq_refl : (t : Text) → text_eq t t ≡ true
text_eq_refl t = (text_eq_iff t t).1 refl

lstrip-lstrip : (t : Text) → lstrip (lstrip t) ≡ lstrip t
unfolding lstrip
lstrip-lstrip [] = refl
lstrip-lstrip (c ∷ t) = elim (Bool-cases (is_space c)) [
  | inl s ↦ rw s (lstrip-lstrip t)
  | inr n ↦ rw (n, n)
]

rstrip-rstrip : (t : Text) → rstrip (rstrip t) ≡ rstrip t
unfolding rstrip
rstrip-rstrip [] = refl
rstrip-rstrip (c ∷ t) = ground (arith, rstrip-rstrip t)

rstrip-lstrip : (t : Text) → rstrip (lstrip t) ≡ lstrip (rstrip t)
unfolding lstrip rstrip
rstrip-lstrip [] = refl
rstrip-lstrip (c ∷ t) = ground (arith, rstrip-lstrip t)

pub strip-strip : (t : Text) → strip (strip t) ≡ strip t
unfolding strip
strip-strip t =
    ap lstrip (rstrip-lstrip (rstrip t))
    ∙ lstrip-lstrip (rstrip (rstrip t))
    ∙ ap lstrip (rstrip-rstrip t)
