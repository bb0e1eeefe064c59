-- ===== src/Base.antt =====
-- What the modules share: the libraries' names, passed on, and the tests, lists and bits below.
mod Tests
mod Lists
mod Splice
mod Bytes
mod Word
mod Bits
mod Mask
mod Range
mod Int
pub use Tests.*
pub use Lists.*
pub use Splice.*
pub use Bytes.*
pub use Word.*
pub use Bits.*
pub use Mask.*
pub use Range.*
pub use Int.*
pub use Prim.Native.Nat.{ℕ, zero, suc, ◌+◌, ◌-◌, ◌*◌, ◌/◌, ◌%◌, ◌^◌, ◌≤◌, ◌<◌, min}
pub use mathlib.Core.Path.{◌≡◌, refl, sym, ap, ◌∙◌}
pub use mathlib.Core.Logic.{◌≢◌, ◌↔◌, ◌⊎◌, inl, inr}
pub use mathlib.Core.Bool.{Bool, true, false, not, ◌&&◌, ◌||◌}
pub use mathlib.Core.Option.{Option, none, some}
pub use mathlib.Core.List.{List, [], ◌∷◌, ◌++◌, map}
pub use native.Mathlib.Omega.{arith}
pub use Prim.Native.Nat.{bit_and, bit_or}
