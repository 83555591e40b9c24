-- ===== src/Prelude.antt =====
-- The names that the other modules share: the libraries', passed on, and those of three children.
mod Tests
mod Lists
mod Rows
mod Members
mod Order
pub use Tests.*
unfoldable pub use Tests.{clamp_limit, clamp_offset}
pub use Lists.*
unfoldable pub use Rows.{find, select, modify_where, remove_where, any}
pub use Rows.{
  find-append, find-append_some, find_sound, find-modify_where, find-modify_where_id, select-append,
  select_none, select-modify_where_other, select-remove_where_other, any-append, any-of_find,
  find-of_any, find-push, any_of-find, any_of-found, any-push, any-push_new,
  select-modify_where_same, length-modify_where, modify_where-modify_where,
}
pub use Members.*
unfoldable pub use Order.{insert_by, sort_by}
pub use Order.{
  IsAscending, sort_by-ascending, sort_by-push, any-sort_by, IsAscending-push, IsAscending-select,
  All-select,
}
pub use Prim.Native.Nat.{ℕ, zero, suc, ◌+◌, ◌-◌, ◌*◌, ◌/◌, ◌≤◌, ◌<◌, min, max}
pub use Prim.Native.String.{String}
pub use mathlib.Core.Path.{◌≡◌, refl, sym, ap, ◌∙◌, subst, subst₂}
pub use mathlib.Core.Logic.{◌≢◌, ◌↔◌, ◌⊎◌, inl, inr}
pub use mathlib.Core.Bool.{Bool, true, false, ◌&&◌, ◌||◌, not}
pub use mathlib.Core.Option.{Option, none, some}
pub use mathlib.Core.List.{List, [], ◌∷◌, ◌++◌, map, append-nil, append_assoc}
pub use native.Mathlib.Omega.{arith}
pub use text.Mathlib.Text.{◌==◌ as str_eq}
pub use text.Mathlib.TextEquality.{eq_iff}
