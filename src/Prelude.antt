-- ===== src/Prelude.antt =====
-- The names that the other modules share: the libraries' and those of the children.
mod Tests
mod Lists
pub mod Dict
pub use Tests.*
pub use Lists.{
  length, take, drop, is_empty, All, Some, Distinct, length-append, length-take_le, All-append,
  All-keep, All-kept, All-take, All-map, All-update_where, All-of, Some_of_All, Some-map,
  map-update_where, keep-update_where, keep-append, length-update_where, count_where-update_le,
  count_where-update_lt, contains-append, Distinct-append,
}
unfoldable pub use Lists.{keep, count_where, any_where, update_where, contains}
pub use Prim.Native.Nat.{ℕ, zero, suc, ◌+◌, ◌-◌, ◌*◌, ◌/◌, ◌%◌, ◌^◌, ◌≤◌, ◌<◌, min, max}
pub use mathlib.Core.Path.{◌≡◌, refl, sym, ap, ◌∙◌, subst}
pub use mathlib.Core.Logic.{◌≢◌, ◌↔◌, ◌⊎◌, inl, inr}
pub use mathlib.Core.Bool.{Bool, true, false, not, ◌&&◌, ◌||◌}
pub use mathlib.Core.Option.{Option, none, some}
pub use mathlib.Core.List.{List, [], ◌∷◌, ◌++◌, map}
pub use native.Mathlib.Omega.{arith}
