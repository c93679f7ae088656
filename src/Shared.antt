-- ===== src/Shared.antt =====
-- The names that every other module shares: the libraries', passed on, and those of the children.
mod Tests
mod Int
mod Texts
mod Lists
mod Results
mod Time
mod Dicts
mod Decimals
pub use Tests.*
unfoldable pub use Int.*
unfoldable pub use Texts.*
pub use Lists.*
pub use Results.*
pub use Time.*
pub use Dicts.*
pub use Decimals.*
pub use Prim.Native.Nat.{ℕ, zero, suc, ◌+◌, ◌-◌, ◌*◌, ◌/◌, ◌%◌, ◌≤◌, ◌<◌}
pub use mathlib.Core.Path.{◌≡◌, refl, sym, ap, ◌∙◌}
pub use mathlib.Core.Logic.{◌≢◌, ◌↔◌, ◌⊎◌, inl, inr}
pub use mathlib.Core.Bool.{Bool, true, false, not, ◌&&◌, ◌||◌}
pub use mathlib.Core.Option.{Option, none, some}
pub use mathlib.Core.List.{List, [], ◌∷◌, ◌++◌, map}
pub use native.Mathlib.Omega.{arith}
