-- ===== src/Base.antt =====
-- What the other modules share: names of the libraries, passed on, and the children's.
pub mod Tests
pub mod Calls
pub mod Bind
pub mod Text
pub mod Lists
pub mod Int
pub use Tests.*
pub use Calls.*
unfoldable pub use Text.{join, lookup, assign, or_empty, get_or_empty}
pub use Text.{lookup-assign, lookup-assign_ne, same-or-not}
pub use Lists.*
pub use Int.{ℤ, pos, negsuc}
pub use Prim.Native.Nat.{ℕ, zero, suc, ◌+◌, ◌-◌, ◌*◌, ◌%◌, ◌≤◌, ◌<◌}
pub use Prim.Native.String.{String, ◌++◌ as ◌<>◌}
pub use mathlib.Core.Path.{◌≡◌, refl, sym, ◌∙◌, ap, subst}
pub use mathlib.Core.Logic.{◌≢◌, ◌↔◌, ◌⊎◌, inl, inr}
pub use mathlib.Core.Bool.{Bool, true, false, not, ◌&&◌, ◌||◌}
pub use mathlib.Core.Option.{Option, none, some}
pub use mathlib.Core.List.{List, [], ◌∷◌, ◌++◌, map}
pub use native.Mathlib.Omega.{arith}
pub use text.Mathlib.Text.{◌==◌}
pub use text.Mathlib.TextEquality.{eq_iff}
