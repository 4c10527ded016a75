-- ===== src/Base.antt =====
-- Names and helpers that the modules share: the libraries', passed on, tests on numbers and
-- texts, lists over the native numbers, and dictionaries with text keys.
mod Tests
mod Lists
mod Maps
pub mod Text
pub use Tests.*
pub use Lists.*
unfoldable pub use Maps.{lookup, insert, delete, contains_key}
pub use Maps.{lookup-insert, lookup-delete}
pub use Prim.Native.Nat.{ℕ, zero, suc, ◌+◌, ◌-◌, ◌*◌, ◌/◌, ◌%◌, ◌≤◌, ◌<◌}
pub use Prim.Native.String.{String}
pub use mathlib.Core.Path.{◌≡◌, refl, sym, ap, subst, ◌∙◌}
pub use mathlib.Core.Logic.{◌≢◌, ◌↔◌, ◌⊎◌, inl, inr}
pub use mathlib.Core.Bool.{Bool, true, false, not, ◌&&◌, ◌||◌}
pub use mathlib.Core.Option.{Option, none, some}
pub use mathlib.Core.List.{List, [], ◌∷◌, ◌++◌, map, Perm}
pub use native.Mathlib.Omega.{arith}
pub use text.Mathlib.TextEquality.{eq_iff}
