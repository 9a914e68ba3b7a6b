-- ===== src/Base/Words.antt =====
-- Checked arithmetic on machine words: `none` where the result does not fit.
use Prim.Native.Nat.{ℕ, ◌+◌, ◌-◌, ◌*◌, ◌/◌, ◌^◌, ◌≤◌, ◌<◌}
use mathlib.Core.Path.{◌≡◌, refl}
use mathlib.Core.Option.{Option, none, some}
use native.Mathlib.Omega.{arith}
use programmable_solana.Base.Tests.{ltb, leb, ◌==◌, if◌then◌else◌}

abbrev pub IsU64 : ℕ → Type 0
IsU64 v = v < 2 ^ 64

-- `option.and_then(f)`
abbrev pub and_then {ℓ κ} : {A : Type ℓ} {B : Type κ} → Option A → (A → Option B) → Option B
and_then none f = none
and_then (some a) f = f a

unfoldable pub checked_add_u64 : ℕ → ℕ → Option ℕ
checked_add_u64 a b = if ltb (a + b) (2 ^ 64) then some (a + b) else none

unfoldable pub checked_sub_u64 : ℕ → ℕ → Option ℕ
checked_sub_u64 a b = if leb b a then some (a - b) else none

unfoldable pub checked_sub_u128 : ℕ → ℕ → Option ℕ
checked_sub_u128 a b = if leb b a then some (a - b) else none

unfoldable pub checked_add_u128 : ℕ → ℕ → Option ℕ
checked_add_u128 a b = if ltb (a + b) (2 ^ 128) then some (a + b) else none

unfoldable pub checked_mul_u128 : ℕ → ℕ → Option ℕ
checked_mul_u128 a b = if ltb (a * b) (2 ^ 128) then some (a * b) else none

unfoldable pub checked_div_u128 : ℕ → ℕ → Option ℕ
checked_div_u128 a b = if b == 0 then none else some (a / b)

-- `u64::try_from(v).ok()`
unfoldable pub try_u64 : ℕ → Option ℕ
try_u64 v = if ltb v (2 ^ 64) then some v else none

pub checked_add_u64-eq-some :
    (a b : ℕ) {c : ℕ} → checked_add_u64 a b ≡ some c → (c ≡ a + b) × (a + b < 2 ^ 64)
unfolding checked_add_u64
checked_add_u64-eq-some a b h = ground arith

pub checked_sub_u64-eq-some : (a b : ℕ) {c : ℕ} → checked_sub_u64 a b ≡ some c → c + b ≡ a
unfolding checked_sub_u64
checked_sub_u64-eq-some a b h = ground arith

pub checked_add_u64_fits : (a b : ℕ) → a + b < 2 ^ 64 → checked_add_u64 a b ≡ some (a + b)
unfolding checked_add_u64
checked_add_u64_fits a b h = ground arith

pub checked_sub_u64_fits : (a b : ℕ) → b ≤ a → checked_sub_u64 a b ≡ some (a - b)
unfolding checked_sub_u64
checked_sub_u64_fits a b h = ground arith

pub checked_sub_u128_fits : (a b : ℕ) → b ≤ a → checked_sub_u128 a b ≡ some (a - b)
unfolding checked_sub_u128
checked_sub_u128_fits a b h = ground arith

pub checked_sub_u128-eq-some :
    (a b : ℕ) {c : ℕ} → checked_sub_u128 a b ≡ some c → (c ≡ a - b) × (b ≤ a)
unfolding checked_sub_u128
checked_sub_u128-eq-some a b h = ground arith

pub checked_add_u128-eq-some : (a b : ℕ) {c : ℕ} → checked_add_u128 a b ≡ some c → c ≡ a + b
unfolding checked_add_u128
checked_add_u128-eq-some a b h = ground arith

pub checked_mul_u128-eq-some : (a b : ℕ) {c : ℕ} → checked_mul_u128 a b ≡ some c → c ≡ a * b
unfolding checked_mul_u128
checked_mul_u128-eq-some a b h = ground arith

pub checked_div_u128-eq-some : (a b : ℕ) {c : ℕ} → checked_div_u128 a b ≡ some c → c ≡ a / b
unfolding checked_div_u128
checked_div_u128-eq-some a b h = ground arith

pub try_u64-eq-some : (v : ℕ) {c : ℕ} → try_u64 v ≡ some c → (c ≡ v) × IsU64 c
unfolding try_u64
try_u64-eq-some v h = ground arith

pub and_then-eq-some {ℓ κ} :
    {A : Type ℓ} {B : Type κ} (o : Option A) (f : A → Option B) {b : B}
    → and_then o f ≡ some b
    → (a : A) × (o ≡ some a) × (f a ≡ some b)
and_then-eq-some none f h = cc
and_then-eq-some (some a) f h = (a, refl, h)

product_lt : (a b m n : ℕ) → a < m → b < n → a * b < m * n
product_lt a b m n ha hb = grind arith

-- Products of two words of 64 bits fit 128.
pub word_product_fits : (a b : ℕ) → IsU64 a → IsU64 b → a * b < 2 ^ 128
word_product_fits a b ha hb = product_lt a b (2 ^ 64) (2 ^ 64) ha hb
