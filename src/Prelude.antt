-- ===== src/Prelude.antt =====
-- The names that the other modules share: the libraries', passed on, Boolean tests on native
-- numbers and texts, results that may be a Python exception, and actions on a database with what they keep.
mod Tests
mod Results
mod Preserve
pub mod Table
pub use Tests.*
pub use Results.*
pub use Preserve.*
pub use Prim.Native.Nat.{ℕ, zero, suc, ◌+◌, ◌-◌, ◌≤◌, ◌<◌}
pub use Prim.Native.String.{String}
pub use mathlib.Core.Path.{◌≡◌, refl, sym, ap, ◌∙◌}
pub use mathlib.Core.Logic.{◌≢◌, ◌↔◌, ◌⊎◌, inl, inr}
pub use mathlib.Core.Bool.{Bool, true, false, not, ◌&&◌, ◌||◌}
pub use mathlib.Core.Option.{Option, none, some}
pub use mathlib.Core.List.{List, [], ◌∷◌, ◌++◌, map}
pub use native.Mathlib.Omega.{arith}
unfoldable pub use native.Mathlib.Decide.{ℕ_discrete}
pub use text.Mathlib.TextEquality.{eq_iff}
