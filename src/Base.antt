-- ===== src/Base.antt =====
-- The names that the other modules share: the libraries', and those of six children.
mod Tests
mod Rows
mod Facts
mod Trim
mod Outcomes
mod Int
unfoldable pub use Tests.*
unfoldable pub use Rows.*
pub use Facts.*
unfoldable pub use Trim.{Text, is_white, trim_start, trim, codes, has_length}
unfoldable pub use Int.*
unfoldable pub use Outcomes.*
pub use Prim.Native.Nat.{ℕ, zero, suc, ◌+◌, ◌-◌, ◌*◌, ◌/◌, ◌%◌, ◌^◌, ◌≤◌, ◌<◌, max}
pub use Prim.Native.String.{String}
pub use mathlib.Core.Path.{◌≡◌, refl, sym, ap, ◌∙◌, subst}
pub use mathlib.Core.Logic.{◌≢◌, ◌↔◌, ◌⊎◌, inl, inr}
pub use mathlib.Core.Bool.{Bool, true, false, not, ◌&&◌, ◌||◌}
pub use mathlib.Core.Option.{Option, none, some}
pub use mathlib.Core.List.{List, [], ◌∷◌, ◌++◌, map}
pub use native.Mathlib.Omega.{arith}
