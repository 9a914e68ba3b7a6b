-- ===== src/Core/Math.antt =====
-- programs/core/src/math.rs: the protocol fee, rounded up.
use programmable_solana.Base.{
  ℕ, ◌+◌, ◌-◌, ◌*◌, ◌/◌, some, ok_or-eq-ok, lt→ltb, ◌≤◌, ◌<◌, ◌^◌, ◌≡◌, Result, ok, ok_or, Option,
  none, Bool-cases, inl, inr, tests, ltb, and_then, checked_mul_u128, checked_add_u128,
  checked_div_u128, try_u64, IsU64, arith,
}
use programmable_solana.Core.Constants.{basis_points_denominator}
use programmable_solana.Core.Error.{
  Failure, core, ◌>>=◌, ◌>>◌, >>-eq-ok, >>=-eq-ok, require_core-eq-ok, require_core, zero_amount,
  arithmetic_overflow, integer_conversion_failed,
}

unfoldable pub fee_ceil : ℕ → ℕ → Result Failure ℕ
fee_ceil amount fee_bps = do
  require_core (ltb 0 amount) zero_amount
  require_core (ltb 0 fee_bps) arithmetic_overflow
  numerator ←
      ok_or
        (and_then (checked_mul_u128 amount fee_bps)
          (λ value. checked_add_u128 value (basis_points_denominator - 1)))
        (core arithmetic_overflow)
  fee ← ok_or (checked_div_u128 numerator basis_points_denominator) (core arithmetic_overflow)
  ok_or (try_u64 fee) (core integer_conversion_failed)

-- The numerator, where the product and the sum fit in 128 bits.
sum-eq : (product : ℕ) {n : ℕ} → checked_add_u128 product 9_999 ≡ some n → n ≡ product + 9_999
unfolding checked_add_u128
sum-eq product h = ground arith

numerator-eq :
    (amount fee_bps : ℕ) {n : ℕ}
    → and_then
        (checked_mul_u128 amount fee_bps)
        (λ value. checked_add_u128 value (basis_points_denominator - 1))
      ≡ some n
    → n ≡ amount * fee_bps + 9_999
unfolding checked_mul_u128
numerator-eq amount fee_bps h = elim (Bool-cases (ltb (amount * fee_bps) (2 ^ 128))) [
  | inl fits ↦ sum-eq (amount * fee_bps) (rw fits at h)
  | inr overflows ↦ absurd (none_ne (rw overflows at h))
]
  where
    none_ne : {n : ℕ} → ◌≡◌ {A = Option ℕ} none (some n) → ⊥
    none_ne e = cc

quotient-eq :
    (a : ℕ) {q : ℕ} → checked_div_u128 a basis_points_denominator ≡ some q → q ≡ a / 10_000
unfolding checked_div_u128
quotient-eq a h = ground arith

try_u64-eq : (v : ℕ) {u : ℕ} → try_u64 v ≡ some u → (u ≡ v) × IsU64 v
unfolding try_u64
try_u64-eq v h = ground arith

-- A computed fee is the least number of units that covers the rate, in basis points, of a
-- positive amount, and fits 64 bits.
pub fee_ceil_least :
    (amount fee_bps fee : ℕ)
    → fee_ceil amount fee_bps ≡ ok fee
    → (amount * fee_bps ≤ fee * 10_000)
      × (fee * 10_000 < amount * fee_bps + 10_000)
      × IsU64 fee
      × (0 < amount)
unfolding fee_ceil
fee_ceil_least amount fee_bps fee h =
    let (positive, h1) = >>-eq-ok _ _ h in
    let (rate, h2) = >>-eq-ok _ _ h1 in
    let (numerator, n, h3) = >>=-eq-ok _ _ h2 in
    let (quotient, q, h4) = >>=-eq-ok _ _ h3 in
    omega (
      tests,
      require_core-eq-ok _ _ positive,
      numerator-eq amount fee_bps (ok_or-eq-ok _ _ n),
      quotient-eq numerator (ok_or-eq-ok _ _ q),
      try_u64-eq quotient (ok_or-eq-ok _ _ h4),
    )

-- At the fixed rate of thirty basis points every positive amount of 64 bits has a fee, no
-- larger than the amount.
pub fee_ceil_total :
    (amount : ℕ)
    → 0 < amount
    → IsU64 amount
    → (fee : ℕ) × (fee_ceil amount 30 ≡ ok fee) × (fee ≤ amount)
unfolding fee_ceil checked_mul_u128 checked_add_u128 checked_div_u128 try_u64 ◌>>◌ require_core
    ◌>>=◌ ok_or
fee_ceil_total amount pos h = (
  (amount * 30 + 9_999) / 10_000,
  rw (
    lt→ltb 0 amount pos,
    lt→ltb (amount * 30) (2 ^ 128) (omega arith),
    lt→ltb (amount * 30 + 9999) (2 ^ 128) (omega arith),
    lt→ltb ((amount * 30 + 9999) / 10000) (2 ^ 64) (omega arith),
  ),
  omega arith,
)
