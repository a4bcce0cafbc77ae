-- ===== src/Base.antt =====
-- The names that the modules share: the library's, passed on, with tests on numbers, bytes and
-- dictionaries over them.
mod Numbers
mod Texts
mod Maps
mod Runs
pub mod Tables
pub mod Cells
unfoldable pub use Numbers.*
unfoldable pub use Texts.*
unfoldable pub use Maps.*
pub use Runs.*
pub use Prim.Native.Nat.{ℕ, zero, suc, ◌+◌, ◌-◌, ◌*◌, ◌/◌, ◌%◌, ◌^◌, ◌≤◌, ◌<◌}
pub use mathlib.Core.Path.{◌≡◌, refl, sym, ap, ◌∙◌, subst}
pub use mathlib.Core.Logic.{◌≢◌, ◌↔◌, ◌⊎◌, inl, inr}
pub use mathlib.Core.Bool.{Bool, true, false, not, ◌&&◌, ◌||◌}
pub use mathlib.Core.Option.{Option, none, some}
pub use mathlib.Core.List.{List, [], ◌∷◌, ◌++◌, map, append-nil, append_assoc}
pub use native.Mathlib.Omega.{arith}
