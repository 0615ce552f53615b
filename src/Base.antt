-- ===== src/Base.antt =====
-- The names the other modules share: the libraries' names, passed on, and those of the children.
mod Tests
mod Words
mod Int
mod Bytes
mod Lists
mod Slices
mod Bits
mod Digits
pub use Tests.*
unfoldable pub use Words.*
unfoldable pub use Int.*
unfoldable pub use Lists.*
pub use Slices.*
pub use Bytes.*
pub use Bits.*
pub use Digits.*
pub use Prim.Native.Nat.{ℕ, zero, suc, ◌+◌, ◌-◌, ◌*◌, ◌/◌, ◌%◌, ◌^◌, ◌≤◌, ◌<◌, min, max}
pub use Prim.Native.Nat.{bit_and, bit_or, bit_xor}
pub use mathlib.Core.Path.{◌≡◌, refl, sym, ap, ap₂, ◌∙◌, fun_ext}
pub use mathlib.Core.Logic.{◌≢◌, ◌↔◌, ◌⊎◌, inl, inr}
pub use mathlib.Core.Bool.{Bool, true, false, not, ◌&&◌, ◌||◌}
pub use mathlib.Core.Option.{Option, none, some}
pub use mathlib.Core.List.{List, [], ◌∷◌, ◌++◌}
pub use native.Mathlib.Omega.{arith}
