-- ===== src/Prelude.antt =====
-- The names that the other modules share: the libraries', passed on, and those of the children.
mod Tests
mod Lists
mod Selecting
mod Sorting
mod Distinct
mod Outcome
mod Codes
mod Int
mod Dicts
pub use Tests.*
pub use Lists.*
pub use Selecting.*
pub use Outcome.*
unfoldable pub use Codes.{codes_eq, codes_lt}
pub use Codes.{codes_eq_sound, codes_eq_refl, codes_lt_total, codes_lt_connex}
pub use Int.*
pub use Dicts.*
pub use Distinct.*
unfoldable pub use Sorting.{sort_by, insert_by, max_by}
pub use Sorting.{
  IsTotal, IsSorted, IsTransitive, sort_by-IsSorted, All-sort_by, elem-sort_by, length-sort_by,
  max_by_upper, max_by_holds, max_by-IsMem, any_of-sort_by, AllPairs-sort_by, Memᴰ-sort_by,
}
pub use Prim.Native.Nat.{ℕ, zero, suc, ◌+◌, ◌-◌, ◌*◌, ◌/◌, ◌%◌, ◌^◌, ◌≤◌, ◌<◌, min, max}
pub use Prim.Native.String.{String, count}
pub use Prim.Native.String.{◌++◌ as str_append}
pub use mathlib.Core.Path.{◌≡◌, refl, sym, ap, ◌∙◌, subst, ◌≡⟨◌⟩◌, ◌∎}
pub use mathlib.Core.Logic.{◌≢◌, ◌↔◌, ◌⊎◌, inl, inr}
pub use mathlib.Core.Bool.{Bool, true, false, not, ◌&&◌, ◌||◌}
pub use mathlib.Core.Option.{Option, none, some, some-injective}
pub use mathlib.Core.List.{List, [], ◌∷◌, ◌++◌, map, Memᴰ, append-nil, append_assoc, map-append}
pub use native.Mathlib.Omega.{arith}
pub use text.Mathlib.Text.{◌==◌ as str_eq}
pub use text.Mathlib.TextEquality.{eq_iff}
unfoldable pub use mathlib.Core.List.{flat_map, reverse}
