-- ===== src/Base.antt =====
-- The names that the other modules share: the libraries', passed on, and those of the children.
mod Tests
mod Lists
mod Order
mod Bits
mod Pow
mod Xor
pub use Tests.*
pub use Lists.*
pub use Order.*
pub use Bits.*
pub use Pow.*
pub use Xor.*
pub use Prim.Native.Nat.{ℕ, zero, suc, ◌+◌, ◌-◌, ◌*◌, ◌/◌, ◌%◌, ◌^◌, ◌≤◌, ◌<◌, min, max}
pub use Prim.Native.Nat.{bit_and, bit_or, bit_xor, compare, Ordering}
pub use mathlib.Core.Path.{◌≡◌, refl, sym, ap, ap₂, subst, ◌∙◌, fun_ext, ◌≡⟨◌⟩◌, ◌∎}
pub use mathlib.Core.Logic.{◌≢◌, ◌↔◌, ◌⊎◌, inl, inr}
pub use mathlib.Core.Bool.{Bool, true, false, not, ◌&&◌, ◌||◌}
pub use mathlib.Core.Option.{Option, none, some}
pub use mathlib.Core.List.{List, [], ◌∷◌, ◌++◌, map, reverse, append-nil, append_assoc}
pub use mathlib.Core.List.{map-append, reverse-append}
pub use native.Mathlib.Omega.{arith}
pub use native.Mathlib.Nat.{add_comm, add_assoc, add-zero, mod-lt, mod-eq_of_lt, mod-add-mod}
pub use native.Mathlib.Nat.{
  add-mod-mod, add-mod_right, mod-eq-sub-mod, mul-add-mod_self_right, mul_assoc, pow-le-pow_right,
  pow-suc, one-le-pow, mod-mod,
}
pub use native.Mathlib.Numerals.{towards_suc}
unfoldable pub use native.Mathlib.Decide.{dec_lt, dec_le, ℕ_discrete}
