-- ===== src/Base.antt =====
-- The names that the modules share: the libraries' names, passed on, and those of the children,
-- which hold Boolean tests, lists over the native numbers, text, signed integers and sorting.
mod Tests
mod Lists
mod Ints
mod Results
mod Deques
pub mod Options
pub mod Text
pub mod Maps
pub mod Sort
pub use Tests.*
pub use Lists.*
pub use Ints.*
pub use Results.*
pub use Deques.*
pub use Prim.Native.Nat.{ℕ, zero, suc, ◌+◌, ◌-◌, ◌*◌, ◌/◌, ◌%◌, ◌^◌, ◌≤◌, ◌<◌, min, max}
pub use mathlib.Core.Path.{◌≡◌, refl, sym, ap, ◌∙◌, subst, ◌≡⟨◌⟩◌, ◌∎}
pub use mathlib.Core.Logic.{◌≢◌, ◌↔◌, ◌⊎◌, inl, inr}
pub use mathlib.Core.Bool.{Bool, true, false, not, ◌&&◌, ◌||◌}
pub use mathlib.Core.Option.{Option, none, some}
pub use mathlib.Core.List.{List, [], ◌∷◌, ◌++◌, map, reverse, append-nil, append_assoc}
pub use native.Mathlib.Omega.{arith}
pub use native.Mathlib.Decide.{ℕ_discrete}
unfoldable pub use mathlib.Core.List.{filter_map}
