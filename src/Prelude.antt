-- ===== src/Prelude.antt =====
-- The names that the other modules share: the libraries', passed on, and those of the children.
mod Tests
mod Lists
pub mod Int
mod Equality
mod Maps
mod Ranges
pub use Tests.*
pub use Ranges.{check_all_sound}
unfoldable pub use Ranges.{check_all}
unfoldable pub use Lists.{select}
pub use Lists.{length, take, drop, length-append, length-take-le, take-append-drop}
pub use Lists.{All, All-append, All-take, All-drop}
pub use Maps.{
  Assoc, insert-IsKeyed, lookup-insert, lookup-delete, lookup-insert_self, lookup-delete_self,
}
unfoldable pub use Maps.{lookup, insert, delete, IsKeyed}
pub use Equality.*
pub use Int.{ℤ, pos, negsuc, ltb_ℤ, leb_ℤ}
pub use Prim.Native.Nat.{ℕ, zero, suc, ◌+◌, ◌-◌, ◌*◌, ◌/◌, ◌%◌, ◌^◌, ◌≤◌, ◌<◌}
pub use Prim.Native.String.{String}
pub use mathlib.Core.Path.{◌≡◌, refl, sym, ap, subst, ◌∙◌}
pub use mathlib.Core.Logic.{◌≢◌, ◌↔◌, ◌⊎◌, inl, inr}
pub use mathlib.Core.Bool.{Bool, true, false, ◌&&◌, ◌||◌}
pub use mathlib.Core.Option.{Option, none, some}
pub use mathlib.Core.List.{List, [], ◌∷◌, ◌++◌, map}
pub use native.Mathlib.Omega.{arith}
