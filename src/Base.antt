-- ===== src/Base.antt =====
-- Names that every module of the development shares: the native numbers, lists, options, tests,
-- masks and the kernel's error codes.
mod Tests
mod Lists
mod Words
mod Errors
mod Int
mod Cyclic
mod Keep
pub use Tests.*
pub use Lists.*
pub use Words.*
pub use Errors.*
pub use Int.*
pub use Cyclic.*
pub use Keep.*
pub use Prim.Native.Nat.{ℕ, zero, suc, ◌+◌, ◌-◌, ◌*◌, ◌/◌, ◌%◌, ◌^◌, ◌≤◌, ◌<◌, min, max, bit_and}
pub use mathlib.Core.Path.{◌≡◌, refl, sym, ap, ◌∙◌, subst}
pub use mathlib.Core.Logic.{◌≢◌, ◌↔◌, ◌⊎◌, inl, inr}
pub use mathlib.Core.Bool.{Bool, true, false, ◌&&◌, ◌||◌, not}
pub use mathlib.Core.Option.{Option, none, some}
pub use mathlib.Core.List.{List, [], ◌∷◌, ◌++◌, map}
pub use native.Mathlib.Omega.{arith}
