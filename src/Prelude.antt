-- ===== src/Prelude.antt =====
-- The names that the modules share: library names passed on, tests and lists over the native
-- numbers, and the reading of a query as an operation on the rows of a table.
pub mod Tests
pub mod Lists
pub mod Tables
pub mod Strings
pub mod Decimal
pub mod Deletions
pub use Tests.*
pub use Lists.*
pub use Tables.*
pub use Deletions.*
pub use Strings.{is_empty, size}
unfoldable pub use Decimal.{show, int_of}
pub use Decimal.{is_decimal, show-decimal, show-ne-empty, int_of-show, all_decimals}
unfoldable pub use Strings.{strip, strip_by, is_space, all_chars, truncate, skip, concat}
pub use Strings.{size-concat, all_chars-concat, strip_by_none, strip_by-between}
pub use Prim.Native.Nat.{ℕ, zero, suc, ◌+◌, ◌-◌, ◌*◌, ◌/◌, ◌%◌, ◌≤◌, ◌<◌}
pub use Prim.Native.String.{String}
pub use mathlib.Core.Path.{◌≡◌, refl, sym, ap, ◌∙◌}
pub use mathlib.Core.Logic.{◌≢◌, ◌↔◌, ◌⊎◌, inl, inr}
pub use mathlib.Core.Bool.{Bool, true, false, not, ◌&&◌, ◌||◌}
pub use mathlib.Core.Option.{Option, none, some}
pub use mathlib.Core.List.{List, [], ◌∷◌, ◌++◌, map}
pub use native.Mathlib.Omega.{arith}
