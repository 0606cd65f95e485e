-- ===== src/Common.antt =====
-- The names that the modules share: those of the libraries, passed on, and those of the children:
-- Boolean tests and the conditional, lists indexed by native numbers, unsigned words with the laws
-- of `|`, `&` and the shifts, and signed integers.
mod Tests
mod Lists
mod Slices
mod Words
pub mod Bits
pub mod Powers
pub mod Divisor
pub mod Int
pub mod Signed
pub use Tests.*
pub use Lists.*
pub use Slices.*
pub use Words.*
pub use Prim.Native.Nat.{ℕ, zero, suc, ◌+◌, ◌-◌, ◌*◌, ◌/◌, ◌%◌, ◌^◌, ◌≤◌, ◌<◌, min}
pub use Prim.Native.Nat.{bit_and, bit_or, bit_xor, compare, Ordering}
pub use mathlib.Core.Path.{◌≡◌, refl, sym, ap, ap₂, ◌∙◌}
pub use mathlib.Core.Logic.{◌≢◌, ◌↔◌, ◌⊎◌, inl, inr}
pub use mathlib.Core.Bool.{Bool, true, false, not, ◌&&◌, ◌||◌}
pub use mathlib.Core.Option.{Option, none, some}
pub use mathlib.Core.List.{List, [], ◌∷◌, ◌++◌, map, reverse}
pub use native.Mathlib.Omega.{arith}
