-- ===== src/Common.antt =====
-- Names that the modules of the development share: the library's, passed on, and those of the
-- children, which hold Boolean tests, lists, texts (Go strings as bytes) and Go results.
mod Tests
mod Lists
mod Texts
mod Results
mod Decimal
pub mod Bits
pub mod Xor
pub mod Actions
pub mod Ints
pub use Tests.*
pub use Lists.*
unfoldable pub use Texts.*
unfoldable pub use Decimal.{decimal, unsigned_value, bounded_value, is_digit, all_digits}
pub use Decimal.{
  decimal-injective, decimal-some, all_digits-decimal, unsigned_value-decimal, bounded_value-below,
}
pub use Results.*
pub use Prim.Native.Nat.{ℕ, zero, suc, ◌+◌, ◌-◌, ◌*◌, ◌/◌, ◌%◌, ◌^◌, ◌≤◌, ◌<◌}
pub use Prim.Native.String.{String}
pub use mathlib.Core.Path.{◌≡◌, refl, sym, ap, subst, ◌∙◌}
pub use mathlib.Core.Logic.{◌≢◌, ◌↔◌, ◌⊎◌, inl, inr}
pub use mathlib.Core.Bool.{Bool, true, false, ◌&&◌, ◌||◌, not}
pub use mathlib.Core.Option.{Option, none, some}
pub use mathlib.Core.List.{List, [], ◌∷◌, ◌++◌, map, append_assoc, append-nil}
pub use native.Mathlib.Omega.{arith}
