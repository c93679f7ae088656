-- ===== src/Shared/Time.antt =====
-- Python's `datetime` and `date`. A timestamp has its instant in microseconds, the ordinal of its
-- calendar day in its own zone (`value.date()`), and what it knows of its zone.
use Prim.Native.Nat.{ℕ}
use mathlib.Core.Bool.{Bool, true, false, not, ◌||◌}
use webull_aitrader.Shared.Tests.{if◌then◌else◌, leb, ltb}
use webull_aitrader.Shared.Int.{ℤ, pos_part, neg_part}

pub data Zone : Type 0 where
  -- `tzinfo is None`
  naive : Zone
  -- a `tzinfo` whose `utcoffset()` is None
  no_offset : Zone
  fixed : Zone

pub record Datetime : Type 0 where
  pub instant : ℕ
  pub day : ℕ
  pub zone : Zone

-- The number of seconds from which `timedelta(seconds=…)` raises an OverflowError.
abbrev pub timedelta_seconds : ℕ
timedelta_seconds = 86400000000000

-- Whether `timedelta(seconds=…)` raises it, on either side.
abbrev pub timedelta_overflows : ℤ → Bool
timedelta_overflows seconds =
    leb timedelta_seconds (pos_part seconds) || ltb 86399999913600 (neg_part seconds)

-- `value.tzinfo is None`
abbrev pub lacks_tzinfo : Zone → Bool
lacks_tzinfo naive = true
lacks_tzinfo no_offset = false
lacks_tzinfo fixed = false

-- `value.tzinfo is None or value.utcoffset() is None`
abbrev pub lacks_offset : Zone → Bool
lacks_offset naive = true
lacks_offset no_offset = true
lacks_offset fixed = false

-- Of two timestamps, one has an offset and the other has none: their difference, and their order,
-- raise a TypeError.
abbrev pub is_mixed : Zone → Zone → Bool
is_mixed a b = if lacks_offset a then not (lacks_offset b) else lacks_offset b
