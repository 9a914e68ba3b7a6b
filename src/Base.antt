-- ===== src/Base.antt =====
-- The names that the other modules share: the libraries', passed on, and those of the children.
mod Tests
mod Lists
mod Results
mod Words
pub mod Steps
pub use Tests.*
pub use Lists.*
pub use Results.*
unfoldable pub use Results.{ok_or}
unfoldable pub use Words.{
  checked_add_u64, checked_sub_u64, checked_sub_u128, checked_add_u128, checked_mul_u128,
  checked_div_u128, try_u64,
}
pub use Words.{
  IsU64, and_then, checked_add_u64-eq-some, checked_sub_u64-eq-some, checked_add_u64_fits,
  checked_sub_u64_fits, checked_sub_u128_fits, checked_sub_u128-eq-some, checked_add_u128-eq-some,
  checked_mul_u128-eq-some, checked_div_u128-eq-some, try_u64-eq-some, and_then-eq-some,
  word_product_fits,
}
pub use Prim.Native.Nat.{ℕ, zero, suc, ◌+◌, ◌-◌, ◌*◌, ◌/◌, ◌%◌, ◌^◌, ◌≤◌, ◌<◌}
pub use mathlib.Core.Path.{◌≡◌, refl, sym, ap, ◌∙◌}
pub use mathlib.Core.Logic.{◌≢◌, ◌⊎◌, inl, inr}
pub use mathlib.Core.Bool.{Bool, true, false, not, ◌&&◌, ◌||◌}
pub use mathlib.Core.Option.{Option, none, some}
pub use mathlib.Core.List.{List, [], ◌∷◌, ◌++◌, append_assoc, append-nil}
pub use native.Mathlib.Omega.{arith}
