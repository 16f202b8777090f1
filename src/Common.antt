-- ===== src/Common.antt =====
-- The names that the models share: the library's, passed on, and those of the children.
mod Tests
mod Lists
pub mod Int
mod Control
pub use Tests.*
pub use Lists.*
unfoldable pub use Lists.{total}
pub use Int.{
  ℤ, pos, negsuc, pos_part, neg_part, leb_ℤ, ltb_ℤ, eqb_ℤ, rem, read_at, write_at, inc32, dec32,
  add32-pos, inc32-pos, dec32-pos, count_same, count_more, count_fewer,
}
unfoldable pub use Int.{add32}
pub use Control.*
pub use Prim.Native.Nat.{ℕ, zero, suc, ◌+◌, ◌-◌, ◌*◌, ◌/◌, ◌%◌, ◌^◌, ◌≤◌, ◌<◌}
pub use mathlib.Core.Path.{◌≡◌, refl, sym, ap, ap₂, ◌∙◌}
pub use mathlib.Core.Logic.{◌≢◌, ◌↔◌, ◌⊎◌, inl, inr}
pub use mathlib.Core.Bool.{Bool, true, false, ◌&&◌, ◌||◌, not}
pub use mathlib.Core.Option.{Option, none, some}
pub use mathlib.Core.List.{List, [], ◌∷◌, ◌++◌, map}
pub use native.Mathlib.Omega.{arith}
unfoldable pub use native.Mathlib.Decide.{dec_lt, ℕ_discrete}
