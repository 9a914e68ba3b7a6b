-- ===== src/Cpmm.antt =====
-- The exact-input quote of the constant-product engines:
-- experiments/engine-generated-settlement/test-programs/generated-plan-engine/src/lib.rs.
pub mod Quoted
pub mod Monotone
pub mod Reference
mod Examples
use programmable_solana.Base.{
  ℕ, ◌+◌, ◌-◌, ◌*◌, ◌&&◌, Option, none, some, Result, ok, err, ok_or, require, ltb, and_then,
  checked_add_u64, checked_sub_u64, checked_add_u128, checked_sub_u128, checked_mul_u128,
  checked_div_u128, try_u64,
}
use programmable_solana.Base.Steps.{◌>>=◌, ◌>>◌}
use programmable_solana.Core.Constants.{basis_points_denominator}

-- The errors of `EngineError` that a quote meets.
pub data QuoteError : Type 0 where
  zero_reserve : QuoteError
  zero_input : QuoteError
  invalid_lp_fee_bps : QuoteError
  effective_input_zero : QuoteError
  output_amount_zero : QuoteError
  output_reserve_exceeded : QuoteError
  arithmetic_overflow : QuoteError
  integer_conversion_failed : QuoteError

pub record CpmmQuote : Type 0 where
  pub effective_input : ℕ
  pub lp_fee_retained : ℕ
  pub amount_out : ℕ

-- The effective input, from the gross input and the retained basis points.
unfoldable pub effective_input_of : ℕ → ℕ → Result QuoteError ℕ
effective_input_of gross_input retained_bps = do
  effective_input_u128 ←
      ok_or
        (and_then (checked_mul_u128 gross_input retained_bps)
          (λ value. checked_div_u128 value basis_points_denominator))
        arithmetic_overflow
  ok_or (try_u64 effective_input_u128) integer_conversion_failed

-- The pricing fraction.
unfoldable pub amount_out_of : ℕ → ℕ → ℕ → Result QuoteError ℕ
amount_out_of reserve_in reserve_out effective_input = do
  numerator ← ok_or (checked_mul_u128 reserve_out effective_input) arithmetic_overflow
  denominator ← ok_or (checked_add_u128 reserve_in effective_input) arithmetic_overflow
  amount_out_u128 ← ok_or (checked_div_u128 numerator denominator) arithmetic_overflow
  ok_or (try_u64 amount_out_u128) integer_conversion_failed

unfoldable pub quote_exact_in : ℕ → ℕ → ℕ → ℕ → Result QuoteError CpmmQuote
quote_exact_in reserve_in reserve_out gross_input lp_fee_bps = do
  require (ltb 0 reserve_in && ltb 0 reserve_out) zero_reserve
  require (ltb 0 gross_input) zero_input
  retained_bps ← ok_or (checked_sub_u128 basis_points_denominator lp_fee_bps) invalid_lp_fee_bps
  require (ltb 0 retained_bps) invalid_lp_fee_bps
  reserve_after ← ok_or (checked_add_u64 reserve_in gross_input) arithmetic_overflow
  effective_input ← effective_input_of gross_input retained_bps
  require (ltb 0 effective_input) effective_input_zero
  amount_out ← amount_out_of reserve_in reserve_out effective_input
  require (ltb 0 amount_out) output_amount_zero
  require (ltb amount_out reserve_out) output_reserve_exceeded
  lp_fee_retained ← ok_or (checked_sub_u64 gross_input effective_input) arithmetic_overflow
  ok (record {
    effective_input = effective_input;
    lp_fee_retained = lp_fee_retained;
    amount_out = amount_out;
  })
