-- ===== src/Base.antt =====
-- The names that the other modules share: the libraries', passed on, and those of the children.
mod Tests
mod Lists
mod Text
mod Result
mod Int
pub mod Decimal
pub mod Act
pub use Tests.*
pub use Lists.*
pub use Result.*
pub use Text.{Bytes, codes, is_eq, strcmp_refl, eq_of_strcmp, same_iff, same_refl}
unfoldable pub use Text.{strcmp, same}
pub use Prim.Native.Nat.{ℕ, zero, suc, ◌+◌, ◌-◌, ◌*◌, ◌/◌, ◌%◌, ◌^◌, ◌≤◌, ◌<◌, Ordering, compare}
pub use mathlib.Core.Path.{◌≡◌, refl, sym, ap, ◌∙◌, subst}
pub use mathlib.Core.Logic.{◌≢◌, ◌↔◌, ◌⊎◌, inl, inr}
pub use mathlib.Core.Bool.{Bool, true, false, not, ◌&&◌, ◌||◌}
pub use mathlib.Core.Option.{Option, none, some}
pub use mathlib.Core.List.{List, [], ◌∷◌, ◌++◌, map, append_assoc, append-nil}
pub use native.Mathlib.Omega.{arith}
pub use Int.{ℤ, pos, negsuc, neg, is_neg, Fits, wrap32-Fits, wrap32_self}
unfoldable pub use Int.{wrap32}
