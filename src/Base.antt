-- ===== src/Base.antt =====
-- Names that all parts share: the libraries', and those of the children.
mod Tests
mod Lists
mod Errors
mod Monad
mod Effects
mod Endings
mod Int
mod Related
mod Bits
unfoldable pub use Tests.*
pub use Lists.*
pub use Errors.*
unfoldable pub use Monad.*
pub use Effects.*
pub use Endings.*
pub use Bits.*
pub use Related.*
pub use Int.*
pub use Prim.Native.Nat.{ℕ, zero, suc, ◌+◌, ◌-◌, ◌*◌, ◌/◌, ◌%◌, ◌^◌, ◌≤◌, ◌<◌, min}
pub use Prim.Native.Nat.{bit_and, bit_or, bit_xor}
pub use Prim.Native.String.{String}
pub use mathlib.Core.Path.{◌≡◌, refl, sym, ap, ◌∙◌}
pub use mathlib.Core.Logic.{◌≢◌, ◌⊎◌, inl, inr}
pub use mathlib.Core.Bool.{Bool, true, false, not, ◌&&◌, ◌||◌}
pub use mathlib.Core.Option.{Option, none, some}
pub use mathlib.Core.List.{List, [], ◌∷◌, ◌++◌, map, reverse}
pub use native.Mathlib.Omega.{arith}
