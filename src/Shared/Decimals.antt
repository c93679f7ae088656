-- ===== src/Shared/Decimals.antt =====
-- Python's `Decimal` operations that round to the context's precision. Sums, differences and
-- comparisons are those of the integers.
use Prim.Native.Nat.{ℕ}
use webull_aitrader.Shared.Int.{ℤ}

-- What `Decimal` computes on integer counts of its unit.
pub record Arithmetic : Type 0 where
  -- how many units are 1
  pub scale : ℕ
  pub times : ℤ → ℤ → ℤ
  pub divide : ℤ → ℤ → ℤ
  -- `quantize(Decimal("0.01"))`
  pub quantize : ℤ → ℤ

-- What `Decimal` computes with an average price, which has all the digits that the context holds.
pub record Rounding : Type 0 where
  pub plus : ℤ → ℤ → ℤ
  pub times : ℤ → ℤ → ℤ
  pub divide : ℤ → ℤ → ℤ
