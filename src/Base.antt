-- ===== src/Base.antt =====
-- Names that every module shares: those of the libraries, passed on, and those of the children,
-- which are the Boolean tests on numbers, lists measured by native numbers, byte strings, and
-- results that may throw.
mod Tests
mod Lists
pub mod Bytes
pub mod Fault
pub mod Action
pub mod Bits
unfoldable pub use Tests.*
pub use Lists.*
pub use Prim.Native.Nat.{ℕ, zero, suc, ◌+◌, ◌-◌, ◌*◌, ◌/◌, ◌%◌, ◌^◌, ◌≤◌, ◌<◌}
pub use mathlib.Core.Path.{◌≡◌, subst, refl, sym, ap, ◌∙◌, ◌≡⟨◌⟩◌, ◌∎}
pub use mathlib.Core.Logic.{◌≢◌, ◌↔◌, ◌⊎◌, inl, inr}
pub use mathlib.Core.Bool.{Bool, true, false, ◌&&◌, ◌||◌, not}
pub use mathlib.Core.Option.{Option, none, some}
pub use mathlib.Core.List.{
  List, [], ◌∷◌, ◌++◌, map, foldl, reverse, append_assoc, append-nil, map-append,
}
pub use native.Mathlib.Omega.{arith}
