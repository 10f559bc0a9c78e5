-- ===== src/Common.antt =====
-- The names that the other modules share: the libraries', passed on, and those of the children.
mod Tests
mod Lists
mod Keyed
mod Outcome
mod Text
mod Powers
mod Rearranged
pub use Tests.*
unfoldable pub use Keyed.{first_with, value_or, upsert, insert_by, sort_by}
pub use Keyed.*
pub use Lists.*
unfoldable pub use Rearranged.{concat_map, insert_after, sort_slice}
pub use Rearranged.*
pub use Powers.*
unfoldable pub use Outcome.{◌>>=◌, guard, exactly_one}
pub use Outcome.*
unfoldable pub use Text.{is_space, trim_left, trim_space, to_lower}
pub use Text.{runes, runes-trim_space, trim_space_idem}
pub use Prim.Native.Nat.{ℕ, zero, suc, ◌+◌, ◌-◌, ◌*◌, ◌/◌, ◌%◌, ◌^◌, ◌≤◌, ◌<◌, min, max}
pub use Prim.Native.String.{String}
pub use mathlib.Core.Path.{◌≡◌, refl, sym, ap, subst, ◌∙◌}
pub use mathlib.Core.Logic.{◌≢◌, ◌↔◌, ◌⊎◌, inl, inr}
pub use mathlib.Core.Bool.{Bool, true, false, not, ◌&&◌, ◌||◌}
pub use mathlib.Core.Option.{Option, none, some}
pub use mathlib.Core.List.{List, [], ◌∷◌, ◌++◌, map}
pub use native.Mathlib.Omega.{arith}
pub use text.Mathlib.Text.{◌==◌}
pub use text.Mathlib.TextEquality.{eq_iff}
pub use text.Mathlib.TextPositions.{eq_refl}
