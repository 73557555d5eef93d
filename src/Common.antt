-- ===== src/Common.antt =====
-- The names that the other modules share: the libraries' names, passed on, and those of the
-- children: Boolean tests, lists over the native numbers, results, Python's str and dict.
mod Tests
mod Lists
mod Errors
pub mod Text
pub mod Dict
pub mod Utf8
pub mod Strip
pub mod Digits
pub mod Words
pub mod TextSet
pub mod Stateful
pub use Tests.*
pub use Lists.*
pub use Errors.*
pub use Prim.Native.Nat.{ℕ, zero, suc, ◌+◌, ◌-◌, ◌*◌, ◌/◌, ◌%◌, ◌^◌, ◌≤◌, ◌<◌, min, max}
pub use mathlib.Core.Path.{◌≡◌, refl, sym, ap, ap₂, ◌∙◌, subst}
pub use mathlib.Core.Logic.{◌≢◌, ◌↔◌, ◌⊎◌, inl, inr}
pub use mathlib.Core.Bool.{Bool, true, false, not, ◌&&◌, ◌||◌}
pub use mathlib.Core.Option.{Option, none, some}
pub use mathlib.Core.List.{List, [], ◌∷◌, ◌++◌, map, foldl, append_assoc, append-nil}
pub use native.Mathlib.Omega.{arith}
