-- ===== src/Cpmm/Quoted.antt =====
-- What a successful quote of quote_exact_in has computed, and what it does to the pool.
use programmable_solana.Base.{
  ℕ, ◌+◌, ◌-◌, ◌*◌, ◌/◌, ◌≤◌, ◌<◌, ◌≡◌, ◌&&◌, sym, true, ok, IsU64, ltb, ok-injective, ok_or-eq-ok,
  require-eq-ok, and_then-eq-some, checked_add_u64-eq-some, checked_sub_u64-eq-some,
  checked_sub_u128-eq-some, checked_add_u128-eq-some, checked_mul_u128-eq-some,
  checked_div_u128-eq-some, try_u64-eq-some, ltb→lt, arith,
}
use mathlib.Core.Path.{subst}
use programmable_solana.Base.Steps.{>>-eq-ok, >>=-eq-ok}
use programmable_solana.Cpmm.{CpmmQuote, effective_input_of, amount_out_of, quote_exact_in}

-- A quote of the pool `reserve_in`, `reserve_out`: the fee is rounded in favour of the pool, the
-- output down, and neither is nothing nor the whole reserve.
pub record IsQuoted (reserve_in reserve_out gross_input lp_fee_bps : ℕ) (q : CpmmQuote)
    : Type 0 where
  pub reserve_in_positive : 0 < reserve_in
  pub fee_below_one : lp_fee_bps < 10_000
  pub reserve_fits : IsU64 (reserve_in + gross_input)
  pub effective : q.effective_input ≡ gross_input * (10_000 - lp_fee_bps) / 10_000
  pub effective_positive : 0 < q.effective_input
  pub split : q.effective_input + q.lp_fee_retained ≡ gross_input
  pub priced : q.amount_out ≡ reserve_out * q.effective_input / (reserve_in + q.effective_input)
  pub output_positive : 0 < q.amount_out
  pub output_left : q.amount_out < reserve_out

both_positive : (a b : ℕ) → (ltb 0 a && ltb 0 b) ≡ true → (0 < a) × (0 < b)
both_positive a b h = ground arith

effective_input_of-eq-ok :
    (gross_input retained_bps : ℕ) {e : ℕ}
    → effective_input_of gross_input retained_bps ≡ ok e
    → e ≡ gross_input * retained_bps / 10_000
unfolding effective_input_of
effective_input_of-eq-ok gross_input retained_bps h =
    let (wide, w, h) = >>=-eq-ok _ _ h in
    let (product, p, d) = and_then-eq-some _ _ (ok_or-eq-ok _ _ w) in
    let (narrow, fits) = try_u64-eq-some _ (ok_or-eq-ok _ _ h) in
    let product_eq = checked_mul_u128-eq-some _ _ p in
    let quotient_eq = checked_div_u128-eq-some product 10_000 d in
    omega (arith, narrow, product_eq, quotient_eq)

amount_out_of-eq-ok :
    (reserve_in reserve_out effective_input : ℕ) {o : ℕ}
    → amount_out_of reserve_in reserve_out effective_input ≡ ok o
    → o ≡ reserve_out * effective_input / (reserve_in + effective_input)
unfolding amount_out_of
amount_out_of-eq-ok reserve_in reserve_out effective_input h =
    let (numerator, n, h) = >>=-eq-ok _ _ h in
    let (denominator, d, h) = >>=-eq-ok _ _ h in
    let (wide, q, h) = >>=-eq-ok _ _ h in
    let (narrow, fits) = try_u64-eq-some _ (ok_or-eq-ok _ _ h) in
    let n_eq = checked_mul_u128-eq-some _ _ (ok_or-eq-ok _ _ n) in
    let d_eq = checked_add_u128-eq-some _ _ (ok_or-eq-ok _ _ d) in
    let q_eq = checked_div_u128-eq-some numerator denominator (ok_or-eq-ok _ _ q) in
    rw (narrow, q_eq, n_eq, d_eq)

-- A successful exact-input quote has an effective input of the retained share of the input
-- rounded down, splits the input into it and the retained fee, prices the output as the
-- rounded-down share of the output reserve, and gives neither nothing nor the whole reserve.
pub quote_exact_in→IsQuoted :
    (reserve_in reserve_out gross_input lp_fee_bps : ℕ) (q : CpmmQuote)
    → quote_exact_in reserve_in reserve_out gross_input lp_fee_bps ≡ ok q
    → IsQuoted reserve_in reserve_out gross_input lp_fee_bps q
unfolding quote_exact_in
quote_exact_in→IsQuoted reserve_in reserve_out gross_input lp_fee_bps q h =
    let (positive, h) = >>-eq-ok _ _ h in
    let (input, h) = >>-eq-ok _ _ h in
    let (retained_bps, kept, h) = >>=-eq-ok _ _ h in
    let (rate, h) = >>-eq-ok _ _ h in
    let (reserve_after, sum, h) = >>=-eq-ok _ _ h in
    let (effective_input, effective, h) = >>=-eq-ok _ _ h in
    let (some_input, h) = >>-eq-ok _ _ h in
    let (amount_out, priced, h) = >>=-eq-ok _ _ h in
    let (some_output, h) = >>-eq-ok _ _ h in
    let (some_left, h) = >>-eq-ok _ _ h in
    let (lp_fee_retained, fee, h) = >>=-eq-ok _ _ h in
    let (retained_eq, rate_le) = checked_sub_u128-eq-some _ _ (ok_or-eq-ok _ _ kept) in
    let rate_positive = ltb→lt _ _ (require-eq-ok _ _ rate) in
    subst (λ (q : CpmmQuote). IsQuoted reserve_in reserve_out gross_input lp_fee_bps q)
      (ok-injective h)
      (record {
        reserve_in_positive = (both_positive _ _ (require-eq-ok _ _ positive)).0;
        fee_below_one = omega (arith, retained_eq, rate_le, rate_positive);
        reserve_fits = (checked_add_u64-eq-some _ _ (ok_or-eq-ok _ _ sum)).1;
        effective =
            rw (← retained_eq) (effective_input_of-eq-ok gross_input retained_bps effective);
        effective_positive = ltb→lt _ _ (require-eq-ok _ _ some_input);
        split = omega (arith, checked_sub_u64-eq-some _ _ (ok_or-eq-ok _ _ fee));
        priced = amount_out_of-eq-ok reserve_in reserve_out effective_input priced;
        output_positive = ltb→lt _ _ (require-eq-ok _ _ some_output);
        output_left = ltb→lt _ _ (require-eq-ok _ _ some_left);
      })

quotient_below : (n d q : ℕ) → q ≡ n / d → q * d ≤ n
quotient_below n d q e = grind arith

product_kept : (x e g o z : ℕ) → o * (x + e) ≤ (o + z) * e → e ≤ g → x * (o + z) ≤ (x + g) * z
product_kept x e g o z h k = grind arith

-- A successful exact-input quote does not lower the product of the two reserves, the whole
-- input being added to one and the output taken from the other.
pub quote_exact_in_keeps_product :
    (reserve_in reserve_out gross_input lp_fee_bps : ℕ) (q : CpmmQuote)
    → quote_exact_in reserve_in reserve_out gross_input lp_fee_bps ≡ ok q
    → reserve_in * reserve_out ≤ (reserve_in + gross_input) * (reserve_out - q.amount_out)
quote_exact_in_keeps_product reserve_in reserve_out gross_input lp_fee_bps q h =
    let k = quote_exact_in→IsQuoted reserve_in reserve_out gross_input lp_fee_bps q h in
    let left = reserve_out - q.amount_out in
    let whole : reserve_out ≡ q.amount_out + left = omega (arith, k.output_left) in
    let below = quotient_below _ _ q.amount_out k.priced in
    subst (λ y. reserve_in * y ≤ (reserve_in + gross_input) * left) (sym whole)
      (product_kept reserve_in q.effective_input gross_input q.amount_out left
        (subst (λ y. q.amount_out * (reserve_in + q.effective_input) ≤ y * q.effective_input) whole
          below)
        (omega (arith, k.split)))
