-- ===== src/Base.antt =====
-- The names that the other modules share: those of the libraries, passed on, and of the children.
pub mod Tests
pub mod Lists
pub mod Int
pub mod Text
pub mod Bits
pub mod Optional
pub mod Keep
pub use Tests.*
pub use Lists.*
pub use Int.*
pub use Text.*
pub use Bits.*
pub use Optional.*
pub use Keep.*
pub use Prim.Native.Nat.{ℕ, zero, suc, ◌+◌, ◌-◌, ◌*◌, ◌/◌, ◌%◌, ◌^◌, ◌≤◌, ◌<◌, min, bit_and, bit_or}
pub use Prim.Native.String.{String}
pub use mathlib.Core.Path.{◌≡◌, refl, sym, ap, ◌∙◌}
pub use mathlib.Core.Logic.{◌≢◌, ◌↔◌, ◌⊎◌, inl, inr}
pub use mathlib.Core.Bool.{Bool, true, false, not, ◌&&◌, ◌||◌}
pub use mathlib.Core.Option.{Option, none, some}
pub use mathlib.Core.List.{List, [], ◌∷◌, ◌++◌, map}
pub use native.Mathlib.Omega.{arith}
