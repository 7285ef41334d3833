-- ===== src/Base.antt =====
-- Names, tests, list operations and equality that the components share.
pub mod Tests
pub mod Lists
pub mod Equality
pub mod Tables
pub mod Counts
pub mod Named
pub mod Characters
pub use Tests.*
pub use Lists.*
pub use Equality.*
pub use Characters.*
pub use Tables.*
pub use Counts.*
pub use Named.*
unfoldable pub use setuora_lite.Base.Characters.{
  strip_upper, upper_char, strip, squeeze, upper, is_space,
}
unfoldable pub use setuora_lite.Base.Equality.{Text-discrete, Option-discrete}
pub use Prim.Native.Nat.{ℕ, zero, suc, ◌+◌, ◌-◌, ◌*◌, ◌/◌, ◌%◌, ◌^◌, ◌≤◌, ◌<◌, min, max}
pub use mathlib.Core.Path.{◌≡◌, refl, sym, ap, ◌∙◌}
pub use mathlib.Core.Logic.{◌≢◌, ◌↔◌, ◌⊎◌, inl, inr}
pub use mathlib.Core.Bool.{Bool, true, false, ◌&&◌, ◌||◌, not}
pub use mathlib.Core.Option.{Option, none, some}
pub use mathlib.Core.List.{List, [], ◌∷◌, ◌++◌, map}
pub use native.Mathlib.Omega.{arith}
