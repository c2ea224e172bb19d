-- ===== src/Prelude.antt =====
-- The names that every module shares: the libraries', passed on, and those of the children.
mod Tests
mod Lists
mod Effects
mod Strings
pub use Tests.*
pub use Effects.*
pub use Strings.{in_front}
unfoldable pub use Strings.{split_commas}
unfoldable pub use Effects.{is_down, later}
pub use Lists.{
  length, All, List-cases, find-map, map_found, find-upsert_hit, find-upsert_miss, find-select_keep,
  find-select_drop, find-append, find_sound, select-upsert_miss, select-select_keep, select-not,
  select_all, exists-eq-find, exists-upsert,
}
unfoldable pub use Lists.{find, select, exists, upsert}
pub use Prim.Native.Nat.{ℕ, zero, suc, ◌+◌, ◌-◌, ◌*◌, ◌/◌, ◌%◌, ◌^◌, ◌≤◌, ◌<◌}
pub use Prim.Native.String.{String}
pub use mathlib.Core.Path.{◌≡◌, refl, sym, ap, ◌∙◌}
pub use mathlib.Core.Logic.{◌≢◌, ◌↔◌, ◌⊎◌, inl, inr}
pub use mathlib.Core.Bool.{Bool, true, false, not, ◌&&◌, ◌||◌}
pub use mathlib.Core.Option.{Option, none, some}
pub use mathlib.Core.List.{List, [], ◌∷◌, ◌++◌, map}
pub use native.Mathlib.Omega.{arith}
pub use text.Mathlib.Text.{◌==◌}
pub use text.Mathlib.TextEquality.{eq_iff}
pub use text.Mathlib.TextPositions.{eq_refl}
