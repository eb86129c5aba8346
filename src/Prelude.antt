-- ===== src/Prelude.antt =====
-- The names that the modules of the development share: the libraries' names passed on, and
-- those of five children (tests and conditionals, texts, lists, integers, results).
mod Tests
mod Text
mod Lists
mod Keys
mod Int
mod Outcomes
pub use Tests.*
unfoldable pub use Text.{◌==◌}
pub use Text.{eq_iff, eq_refl, eq-false, ne-eq}
unfoldable pub use Lists.{contains, index_by, erase, erase_at}
pub use Lists.{length, get_elem?, set, All}
pub use Keys.*
unfoldable pub use Int.{◌+ℤ◌, ◌-ℤ◌, sub_int64, add_int64, next_int32}
pub use Int.{ℤ, pos, negsuc, pos_part, neg_part, ltb_ℤ, leb_ℤ, eqb_ℤ}
pub use Outcomes.*
pub use Prim.Native.Nat.{ℕ, zero, suc, ◌+◌, ◌-◌, ◌*◌, ◌/◌, ◌%◌, ◌^◌, ◌≤◌, ◌<◌}
pub use Prim.Native.String.{String}
pub use mathlib.Core.Path.{◌≡◌, refl, sym, ap, subst, ◌∙◌}
pub use mathlib.Core.Logic.{◌≢◌, ◌↔◌, ◌⊎◌, inl, inr}
pub use mathlib.Core.Bool.{Bool, true, false, not, ◌&&◌, ◌||◌}
pub use mathlib.Core.Option.{Option, none, some}
pub use mathlib.Core.List.{List, [], ◌∷◌, ◌++◌, map}
pub use native.Mathlib.Omega.{arith}
