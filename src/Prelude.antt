-- ===== src/Prelude.antt =====
-- The names that the other modules share: the libraries', passed on, and those of two children.
-- They model no code of the repository by themselves.
mod Tests
mod Lists
mod Sorts
mod Names
mod Texts
pub use Tests.*
unfoldable pub use Texts.{String-discrete, Pair-discrete}
pub use Lists.*
pub use Sorts.*
unfoldable pub use Names.{same}
pub use Names.{
  same_sound, same_self, contains, without, IsDistinct, without_absent, without-perm, All-contains,
  get_elem?-contains, get_elem?-some, keep-IsDistinct,
}
pub use Prim.Native.Nat.{ℕ, zero, suc, ◌+◌, ◌-◌, ◌*◌, ◌/◌, ◌%◌, ◌^◌, ◌≤◌, ◌<◌, min, max}
pub use Prim.Native.String.{String}
pub use mathlib.Core.Path.{◌≡◌, refl, sym, ap, ◌∙◌}
pub use mathlib.Core.Logic.{◌≢◌, ◌↔◌, ◌⊎◌, inl, inr}
pub use mathlib.Core.Bool.{Bool, true, false, not, ◌&&◌, ◌||◌}
pub use mathlib.Core.Option.{Option, none, some}
pub use mathlib.Core.List.{List, [], ◌∷◌, ◌++◌, map}
pub use native.Mathlib.Omega.{arith}
