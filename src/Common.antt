-- ===== src/Common.antt =====
-- The names that the other modules share: the libraries', passed on, and those of the children.
pub mod Tests
pub mod Lists
pub mod Chars
pub mod Decimal
pub mod MinBy
pub mod TextOrder
pub mod Equality
pub mod Results
pub mod Patterns
pub mod Sort
pub mod Orders
pub use Tests.*
pub use Lists.*
unfoldable pub use Chars.*
unfoldable pub use Decimal.*
unfoldable pub use MinBy.*
unfoldable pub use Results.*
unfoldable pub use Patterns.*
unfoldable pub use Sort.*
pub use TextOrder.*
pub use Orders.*
pub use Prim.Native.Nat.{ℕ, zero, suc, ◌+◌, ◌-◌, ◌*◌, ◌/◌, ◌%◌, ◌^◌, ◌≤◌, ◌<◌, min, max}
pub use Prim.Native.Nat.{compare, Ordering}
pub use mathlib.Core.Path.{◌≡◌, refl, sym, ap, ◌∙◌, subst}
pub use mathlib.Core.Logic.{◌≢◌, ◌↔◌, ◌⊎◌, inl, inr}
pub use mathlib.Core.Bool.{Bool, true, false, not, ◌&&◌, ◌||◌}
pub use mathlib.Core.Option.{Option, none, some}
pub use mathlib.Core.List.{List, [], ◌∷◌, ◌++◌, map}
pub use native.Mathlib.Omega.{arith}
