-- ===== src/Prelude.antt =====
-- The names that the modules of the kernel share: the libraries', passed on, the Boolean tests
-- and lists over the native numbers, and the status codes of src/kernel/include/nuttle/status.h.
mod Tests
mod Lists
mod Fault
pub mod Bits
pub mod Int
pub use Tests.*
pub use Lists.*
unfoldable pub use Fault.*
pub use Prim.Native.Nat.{
  max, ℕ, zero, suc, ◌+◌, ◌-◌, ◌*◌, ◌/◌, ◌%◌, ◌^◌, ◌≤◌, ◌<◌, min, bit_and, bit_or, bit_xor,
}
pub use mathlib.Core.Path.{◌≡◌, refl, sym, ap, ap₂, ◌∙◌, subst, subst₂, fun_ext}
pub use mathlib.Core.Logic.{◌≢◌, ◌↔◌, ◌⊎◌, inl, inr}
pub use mathlib.Core.Bool.{Bool, true, false, not, ◌&&◌, ◌||◌}
pub use mathlib.Core.Option.{Option, none, some}
pub use mathlib.Core.List.{List, [], ◌∷◌, ◌++◌, map, append-nil, append_assoc}
pub use native.Mathlib.Omega.{arith}
unfoldable pub use native.Mathlib.Decide.{dec_lt, dec_le, ℕ_discrete}
