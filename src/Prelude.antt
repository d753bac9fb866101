-- ===== src/Prelude.antt =====
-- The names that the modules share: the libraries', passed on, and those of the children. No code of
-- the repository is modelled here.
mod Tests
mod Lists
mod Maps
mod Words
mod Float
mod Decimal
pub use Tests.*
pub use Lists.*
unfoldable pub use Maps.*
unfoldable pub use Words.*
unfoldable pub use Float.*
unfoldable pub use Decimal.*
pub use Prim.Native.Nat.{ℕ, zero, suc, ◌+◌, ◌-◌, ◌*◌, ◌/◌, ◌%◌, ◌^◌, ◌≤◌, ◌<◌}
pub use Prim.Native.String.{String}
pub use mathlib.Core.Path.{◌≡◌, refl, sym, ap, ◌∙◌, subst, subst₂}
pub use mathlib.Core.Logic.{◌≢◌, ◌↔◌, ◌⊎◌, inl, inr}
pub use mathlib.Core.Bool.{Bool, true, false, ◌&&◌, ◌||◌, not}
pub use mathlib.Core.Option.{Option, none, some}
pub use mathlib.Core.List.{List, [], ◌∷◌, ◌++◌, map}
pub use native.Mathlib.Omega.{arith}
