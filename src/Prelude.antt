-- ===== src/Prelude.antt =====
-- The names that the modules share: the libraries', passed on, and those of the children: Boolean
-- tests, lists over the native numbers, finite maps as functions, and fixed-width words.
mod Tests
mod Lists
mod Maps
mod Word
pub mod Int
pub use Tests.*
pub use Lists.*
pub use Maps.*
pub use Word.*
pub use Prim.Native.Nat.{ℕ, zero, suc, ◌+◌, ◌-◌, ◌*◌, ◌/◌, ◌%◌, ◌^◌, ◌≤◌, ◌<◌, min, max}
pub use mathlib.Core.Path.{◌≡◌, refl, sym, ap, ◌∙◌, fun_ext}
pub use mathlib.Core.Logic.{◌≢◌, ◌↔◌, ◌⊎◌, inl, inr}
pub use mathlib.Core.Bool.{Bool, true, false, ◌&&◌, ◌||◌, not}
pub use mathlib.Core.Option.{Option, none, some}
pub use mathlib.Core.List.{List, [], ◌∷◌, ◌++◌, map}
pub use native.Mathlib.Omega.{arith}
