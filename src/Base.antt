-- ===== src/Base.antt =====
-- Names that every module shares: the libraries' and those of the children.
mod Tests
mod Lists
mod Int
mod Floats
mod Dicts
mod Order
mod Chosen
pub use Tests.*
pub use Lists.*
unfoldable pub use Int.*
pub use Floats.*
pub use Dicts.*
unfoldable pub use Order.*
pub use Chosen.*
pub use Prim.Native.Nat.{ℕ, zero, suc, ◌+◌, ◌-◌, ◌*◌, ◌/◌, ◌%◌, ◌≤◌, ◌<◌, min, max}
pub use Prim.Native.String.{String}
pub use mathlib.Core.Path.{◌≡◌, refl, sym, ap, ◌∙◌, subst}
pub use mathlib.Core.Logic.{◌≢◌, ◌↔◌, ◌⊎◌, inl, inr}
pub use mathlib.Core.Bool.{Bool, true, false, not, ◌&&◌, ◌||◌}
pub use mathlib.Core.Option.{Option, none, some}
pub use mathlib.Core.List.{List, [], ◌∷◌, ◌++◌, map}
pub use native.Mathlib.Omega.{arith}
