-- ===== src/Cpmm/Examples.antt =====
-- Tests and witnesses of the exact-input quote, on a pool of a million each.
use programmable_solana.Base.{
  ◌+◌, ◌-◌, ◌*◌, ◌≤◌, ◌≡◌, refl, ok, err, arith, checked_add_u64, checked_sub_u64, checked_add_u128,
  checked_sub_u128, checked_mul_u128, checked_div_u128, try_u64, ok_or,
}
use programmable_solana.Base.Steps.{◌>>=◌, ◌>>◌}
use programmable_solana.Cpmm.{
  CpmmQuote, quote_exact_in, effective_input_of, amount_out_of, arithmetic_overflow,
}
use programmable_solana.Cpmm.Quoted.{
  IsQuoted, quote_exact_in→IsQuoted, quote_exact_in_keeps_product,
}
use programmable_solana.Cpmm.Monotone.{quote_exact_in_monotone}
use programmable_solana.Cpmm.Reference.{answered, independent_quote_model, quote_exact_in_agrees}

-- The engine's own test: 100 000 at 30 basis points.
abbrev small_quote : CpmmQuote
small_quote = record { effective_input = 99_700; lp_fee_retained = 300; amount_out = 90_661 }

abbrev large_quote : CpmmQuote
large_quote = record { effective_input = 200_000; lp_fee_retained = 0; amount_out = 166_666 }

quotes_small : quote_exact_in 1_000_000 1_000_000 100_000 30 ≡ ok small_quote
unfolding quote_exact_in effective_input_of amount_out_of checked_add_u64 checked_sub_u64
    checked_add_u128 checked_sub_u128 checked_mul_u128 checked_div_u128 try_u64 ok_or ◌>>=◌ ◌>>◌
quotes_small = refl

quotes_large : quote_exact_in 1_000_000 1_000_000 200_000 0 ≡ ok large_quote
unfolding quote_exact_in effective_input_of amount_out_of checked_add_u64 checked_sub_u64
    checked_add_u128 checked_sub_u128 checked_mul_u128 checked_div_u128 try_u64 ok_or ◌>>=◌ ◌>>◌
quotes_large = refl

-- The sum of the input and the reserve is one too large.
quotes_overflow : quote_exact_in 18_446_744_073_709_551_615 2 1 0 ≡ err arithmetic_overflow
unfolding quote_exact_in effective_input_of amount_out_of checked_add_u64 checked_sub_u64
    checked_add_u128 checked_sub_u128 checked_mul_u128 checked_div_u128 try_u64 ok_or ◌>>=◌ ◌>>◌
quotes_overflow = refl

quote_exact_in→IsQuoted_example : IsQuoted 1_000_000 1_000_000 100_000 30 small_quote
quote_exact_in→IsQuoted_example =
    quote_exact_in→IsQuoted 1_000_000 1_000_000 100_000 30 small_quote quotes_small

quote_exact_in_keeps_product_example :
    1_000_000 * 1_000_000 ≤ (1_000_000 + 100_000) * (1_000_000 - small_quote.amount_out)
quote_exact_in_keeps_product_example =
    quote_exact_in_keeps_product 1_000_000 1_000_000 100_000 30 small_quote quotes_small

quote_exact_in_monotone_example : small_quote.amount_out ≤ large_quote.amount_out
quote_exact_in_monotone_example =
    quote_exact_in_monotone 1_000_000 1_000_000 100_000 200_000 30 0 small_quote large_quote
      quotes_small quotes_large (omega arith) (omega arith)

quote_exact_in_agrees_example :
    answered (quote_exact_in 1_000_000 1_000_000 100_000 30)
    ≡ independent_quote_model 1_000_000 1_000_000 100_000 30
quote_exact_in_agrees_example =
    quote_exact_in_agrees 1_000_000 1_000_000 100_000 30 (omega arith) (omega arith) (omega arith)
