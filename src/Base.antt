-- ===== src/Base.antt =====
-- The names that the other modules share: the libraries', passed on, and those of the children.
mod Tests
mod Lists
mod Words
mod Maps
mod Order
mod Signed
pub use Tests.*
unfoldable pub use Lists.{take, get_elem?}
pub use Lists.{length, length-append, All, All-Memᴰ, get_elem?-nil, get_elem?-zero, get_elem?-suc}
pub use Words.*
pub use Order.*
unfoldable pub use Signed.{◌+ℤ◌, ◌-ℤ◌, ◌*ℤ◌, quotient, remainder, signed, pattern}
pub use Signed.{ℤ, pos, negsuc, pos_part, neg_part, sub_ℕ, ltb_ℤ, fits_i32}
unfoldable pub use Maps.{update, lookup, insert, erase}
pub use Maps.{
  Distinct, lookup-insert, lookup-erase, Distinct-insert, Distinct-erase, length-insert-le,
  length-insert_old, length-erase-le, All-lookup, All-insert, All-erase,
}
pub use Prim.Native.Nat.{ℕ, zero, suc, ◌+◌, ◌-◌, ◌*◌, ◌/◌, ◌%◌, ◌≤◌, ◌<◌}
pub use mathlib.Core.Path.{◌≡◌, refl, sym, ap, ◌∙◌, subst}
pub use mathlib.Core.Logic.{◌≢◌, ◌↔◌, ◌⊎◌, inl, inr}
pub use mathlib.Core.Bool.{Bool, true, false, not, ◌&&◌, ◌||◌}
pub use mathlib.Core.Option.{Option, none, some}
pub use mathlib.Core.List.{List, [], ◌∷◌, ◌++◌, map, Memᴰ}
pub use native.Mathlib.Omega.{arith}
