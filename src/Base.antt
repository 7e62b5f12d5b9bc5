-- ===== src/Base.antt =====
-- Names that every other module shares: the libraries', passed on, and the helpers of the children
-- below (Boolean tests, lists and maps over the native numbers, signed integers, sorting). Nothing
-- here models code of its own; Base/Sort stands for Go's sort.Slice and Base/Keys for Go's maps.
mod Tests
mod Lists
mod Keys
mod Int
mod Sort
pub use Tests.*
pub use Lists.*
unfoldable pub use Keys.*
unfoldable pub use Int.*
unfoldable pub use Sort.*
pub use Prim.Native.Nat.{ℕ, zero, suc, ◌+◌, ◌-◌, ◌*◌, ◌/◌, ◌%◌, ◌^◌, ◌≤◌, ◌<◌, min}
pub use Prim.Native.String.{String}
pub use mathlib.Core.Path.{◌≡◌, refl, sym, ap, subst, ◌∙◌}
pub use mathlib.Core.Logic.{◌≢◌, ◌↔◌, ◌⊎◌, inl, inr}
pub use mathlib.Core.Bool.{Bool, true, false, not, ◌&&◌, ◌||◌}
pub use mathlib.Core.Option.{Option, none, some}
pub use mathlib.Core.List.{List, [], ◌∷◌, ◌++◌, map}
pub use native.Mathlib.Omega.{arith}
pub use text.Mathlib.Text.{◌==◌ as str_eq}
pub use text.Mathlib.TextEquality.{eq_iff}
pub use text.Mathlib.TextPositions.{eq_refl}
