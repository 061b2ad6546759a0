-- ===== src/Prelude.antt =====
-- The names that the modules of every component share: the libraries', and those of the children.
mod Tests
mod Table
mod Predicates
mod Raising
mod Sorting
mod Keys
mod Texts
pub use Tests.*
unfoldable pub use Table.*
pub use Predicates.*
pub use Raising.*
pub use Keys.*
unfoldable pub use Texts.*
unfoldable pub use Sorting.*
pub use Prim.Native.Nat.{ℕ, zero, suc, ◌+◌, ◌-◌, ◌*◌, ◌≤◌, ◌<◌, min}
pub use Prim.Native.String.{String}
pub use mathlib.Core.Path.{◌≡◌, refl, sym, ap, ◌∙◌, subst}
pub use mathlib.Core.Logic.{◌≢◌, ◌↔◌, ◌⊎◌, inl, inr}
pub use mathlib.Core.Bool.{Bool, true, false, not, ◌&&◌, ◌||◌}
pub use mathlib.Core.Option.{Option, none, some}
pub use mathlib.Core.List.{List, [], ◌∷◌, ◌++◌, map}
pub use native.Mathlib.Omega.{arith}
pub use text.Mathlib.TextEquality.{eq_iff}
