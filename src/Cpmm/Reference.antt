-- ===== src/Cpmm/Reference.antt =====
-- The quote against the reference model of the engine's own tests, which computes in one pass and
-- answers nothing where the code answers an error.
use programmable_solana.Base.{
  ℕ, ◌+◌, ◌-◌, ◌*◌, ◌/◌, ◌%◌, ◌^◌, ◌≤◌, ◌<◌, ◌≡◌, refl, sym, ◌∙◌, ap, Bool, true, ◌&&◌, ◌||◌, ◌==◌,
  leb, ltb, if◌then◌else◌, require, ok_or, ok_or-some, checked_add_u64_fits, checked_sub_u64_fits,
  checked_sub_u128_fits, lt→ltb, checked_add_u128, checked_mul_u128, checked_div_u128, try_u64,
  Option, none, some, Result, ok, err, panic, IsU64, word_product_fits, arith,
}
use programmable_solana.Base.Steps.{◌>>=◌, ok->>=, ok->>}
use mathlib.Core.Path.{subst}
use programmable_solana.Cpmm.{
  CpmmQuote, QuoteError, effective_input_of, amount_out_of, quote_exact_in,
}
use programmable_solana.Cpmm.Quoted.{IsQuoted, quote_exact_in→IsQuoted}

-- The quote that the products of exact numbers give.
abbrev pub reference : ℕ → ℕ → ℕ → ℕ → CpmmQuote
reference reserve_in reserve_out gross_input effective_input = record {
  effective_input = effective_input;
  lp_fee_retained = gross_input - effective_input;
  amount_out = reserve_out * effective_input / (reserve_in + effective_input) % 2 ^ 64;
}

-- The second half of the model, from the effective input on.
unfoldable pub priced_quote : ℕ → ℕ → ℕ → ℕ → Option CpmmQuote
priced_quote reserve_in reserve_out gross_input effective_input =
    let amount_out = reserve_out * effective_input / (reserve_in + effective_input) % 2 ^ 64 in
    if effective_input == 0
    then none
    else if amount_out == 0 || leb reserve_out amount_out
    then none
    else some (reference reserve_in reserve_out gross_input effective_input)

unfoldable pub independent_quote_model : ℕ → ℕ → ℕ → ℕ → Option CpmmQuote
independent_quote_model reserve_in reserve_out gross_input lp_fee_bps =
    if reserve_in == 0
      || (reserve_out == 0
          || (gross_input == 0
              || (leb 10_000 lp_fee_bps || leb (2 ^ 64) (reserve_in + gross_input))))
    then none
    else priced_quote reserve_in reserve_out gross_input
        (gross_input * (10_000 - lp_fee_bps) / 10_000 % 2 ^ 64)

-- `result.ok()`
unfoldable pub answered : Result QuoteError CpmmQuote → Option CpmmQuote
answered (ok q) = some q
answered (err e) = none
answered panic = none

quote_ext :
    (q r : CpmmQuote)
    → q.effective_input ≡ r.effective_input
    → q.lp_fee_retained ≡ r.lp_fee_retained
    → q.amount_out ≡ r.amount_out
    → q ≡ r
quote_ext q r h k l = λ i. record { effective_input = h i; lp_fee_retained = k i; amount_out = l i }

effective_fits : (g f : ℕ) → IsU64 g → IsU64 (g * (10_000 - f) / 10_000)
effective_fits g f h = grind arith

output_fits : (x z e : ℕ) → IsU64 z → IsU64 (z * e / (x + e))
output_fits x z e h = grind arith

mod_fits : (v : ℕ) → IsU64 v → v % 2 ^ 64 ≡ v
mod_fits v h = omega arith

inputs_pass :
    (x z g f : ℕ) (a : Option CpmmQuote)
    → 0 < x
    → 0 < z
    → 0 < g
    → f < 10_000
    → IsU64 (x + g)
    → ◌≡◌ {A = Option CpmmQuote}
        (if x == 0 || (z == 0 || (g == 0 || (leb 10_000 f || leb (2 ^ 64) (x + g))))
          then none
          else a)
        a
inputs_pass x z g f a hx hz hg hf hs = ground arith

inputs_passed :
    (x z g f : ℕ) (a : Option CpmmQuote) {q : CpmmQuote}
    → ◌≡◌ {A = Option CpmmQuote}
        (if x == 0 || (z == 0 || (g == 0 || (leb 10_000 f || leb (2 ^ 64) (x + g))))
          then none
          else a)
        (some q)
    → (0 < x) × (0 < z) × (0 < g) × (f < 10_000) × IsU64 (x + g) × (a ≡ some q)
inputs_passed x z g f a h = ground arith

priced_passed :
    (x z g e : ℕ) {q : CpmmQuote}
    → IsU64 z
    → priced_quote x z g e ≡ some q
    → (0 < e)
      × (q.effective_input ≡ e)
      × (q.lp_fee_retained ≡ g - e)
      × (q.amount_out ≡ z * e / (x + e))
      × (0 < q.amount_out)
      × (q.amount_out < z)
unfolding priced_quote
priced_passed x z g e {q} hz h =
    let fits = mod_fits (z * e / (x + e)) (output_fits x z e hz) in ground (arith, fits)

product_below : (g m n : ℕ) → m ≤ n → g * m ≤ g * n
product_below g m n h = grind arith

input_below : (g f : ℕ) → g * (10_000 - f) / 10_000 ≤ g
input_below g f = omega (arith, product_below g (10_000 - f) 10_000 (omega arith))

-- What the reference model answers is a quote.
independent_quote_model→IsQuoted :
    (x z g f : ℕ) {q : CpmmQuote}
    → IsU64 x
    → IsU64 z
    → IsU64 g
    → independent_quote_model x z g f ≡ some q
    → IsQuoted x z g f q
unfolding independent_quote_model
independent_quote_model→IsQuoted x z g f {q} hx hz hg h =
    let (x_positive, z_positive, g_positive, fee, sum, priced) = inputs_passed x z g f _ h in
    let same = mod_fits (g * (10_000 - f) / 10_000) (effective_fits g f hg) in
    let (e_positive, effective, kept, output, output_positive, left) =
      priced_passed x z g (g * (10_000 - f) / 10_000 % 2 ^ 64) hz priced in
    let effective : q.effective_input ≡ g * (10_000 - f) / 10_000 = effective ∙ same in
    let below = input_below g f in
    record {
      reserve_in_positive = x_positive;
      fee_below_one = fee;
      reserve_fits = sum;
      effective = effective;
      effective_positive = omega arith;
      split = omega arith;
      priced = subst (λ e. q.amount_out ≡ z * e / (x + e)) (same ∙ sym effective) output;
      output_positive = output_positive;
      output_left = left;
    }

effective_input_of-eq :
    (g f : ℕ) → IsU64 g → effective_input_of g (10_000 - f) ≡ ok (g * (10_000 - f) / 10_000)
unfolding effective_input_of ok_or checked_mul_u128 checked_div_u128 try_u64 ◌>>=◌
effective_input_of-eq g f h =
    let product = word_product_fits g (10_000 - f) h (omega arith) in
    let fits = effective_fits g f h in ground (arith, product, fits)

amount_out_of-eq :
    (x z e : ℕ) → 0 < x → IsU64 x → IsU64 z → IsU64 e → amount_out_of x z e ≡ ok (z * e / (x + e))
unfolding amount_out_of ok_or checked_mul_u128 checked_add_u128 checked_div_u128 try_u64 ◌>>=◌
amount_out_of-eq x z e positive hx hz he =
    let product = word_product_fits z e hz he in
    let fits = output_fits x z e hz in ground (arith, product, fits)

positive_tests : (a b : ℕ) → 0 < a → 0 < b → (ltb 0 a && ltb 0 b) ≡ true
positive_tests a b h k = ground arith

require-true : (b : Bool) (e : QuoteError) → b ≡ true → require b e ≡ ok tt
require-true b e h = rw h

positive_test : (a : ℕ) (e : QuoteError) → 0 < a → require (ltb 0 a) e ≡ ok tt
positive_test a e h = require-true _ e (ground arith)

input_positive : (g m : ℕ) → 0 < g * m / 10_000 → 0 < g
input_positive g m h = grind arith

-- The code answers every quote.
IsQuoted→quote_exact_in :
    (x z g f : ℕ) (q : CpmmQuote)
    → IsU64 x
    → IsU64 z
    → IsU64 g
    → IsQuoted x z g f q
    → quote_exact_in x z g f ≡ ok q
unfolding quote_exact_in
IsQuoted→quote_exact_in x z g f q hx hz hg k =
    let e = g * (10_000 - f) / 10_000 in
    let e_positive : 0 < e = omega (arith, k.effective, k.effective_positive) in
    let price : q.amount_out ≡ z * e / (x + e) =
      subst (λ e. q.amount_out ≡ z * e / (x + e)) k.effective k.priced in
    ok->> _ _
      (require-true _ _ (positive_tests x z k.reserve_in_positive (omega (arith, k.output_left))))
    ∙ ok->> _ _ (positive_test g _ (input_positive g (10_000 - f) e_positive))
    ∙ ok->>= _ _ (ok_or-some _ (checked_sub_u128_fits 10_000 f (omega (arith, k.fee_below_one))))
    ∙ ok->> _ _ (positive_test (10_000 - f) _ (omega (arith, k.fee_below_one)))
    ∙ ok->>= _ _ (ok_or-some _ (checked_add_u64_fits x g k.reserve_fits))
    ∙ ok->>= _ _ (effective_input_of-eq g f hg)
    ∙ ok->> _ _ (positive_test e _ e_positive)
    ∙ ok->>= _ _ (amount_out_of-eq x z e k.reserve_in_positive hx hz (effective_fits g f hg))
    ∙ ok->> _ _ (positive_test _ _ (subst (λ o. 0 < o) price k.output_positive))
    ∙ ok->> _ _ (require-true _ _ (lt→ltb _ _ (subst (λ o. o < z) price k.output_left)))
    ∙ ok->>= _ _ (ok_or-some _ (checked_sub_u64_fits g e (input_below g f)))
    ∙ ap ok (quote_ext _ q (sym k.effective) (omega (arith, k.split, k.effective)) (sym price))

-- Both answer, or neither does.
answered-eq :
    (r : Result QuoteError CpmmQuote) (m : Option CpmmQuote)
    → ((q : CpmmQuote) → r ≡ ok q → m ≡ some q)
    → ((q : CpmmQuote) → m ≡ some q → r ≡ ok q)
    → answered r ≡ m
unfolding answered
answered-eq (ok q) m there back = sym (there q refl)
answered-eq (err e) none there back = refl
answered-eq (err e) (some q) there back = absurd (let h = back q refl in cc)
answered-eq panic none there back = refl
answered-eq panic (some q) there back = absurd (let h = back q refl in cc)

priced_quote-eq :
    (x z g e : ℕ) (q : CpmmQuote)
    → IsU64 z
    → 0 < e
    → q.effective_input ≡ e
    → q.effective_input + q.lp_fee_retained ≡ g
    → q.amount_out ≡ z * e / (x + e)
    → 0 < q.amount_out
    → q.amount_out < z
    → priced_quote x z g e ≡ some q
unfolding priced_quote
priced_quote-eq x z g e q hz positive effective split priced output left =
    let fits = mod_fits (z * e / (x + e)) (output_fits x z e hz) in
    let chosen : (if e == 0
          then none
          else if z * e / (x + e) % 2 ^ 64 == 0 || leb z (z * e / (x + e) % 2 ^ 64)
          then none
          else some (reference x z g e))
        ≡ some (reference x z g e) =
      ground (arith, fits) in
    chosen ∙ ap some (quote_ext _ q (sym effective) (omega arith) (fits ∙ sym priced))

-- The model answers every quote.
IsQuoted→independent_quote_model :
    (x z g f : ℕ) (q : CpmmQuote)
    → IsU64 z
    → IsU64 g
    → IsQuoted x z g f q
    → independent_quote_model x z g f ≡ some q
unfolding independent_quote_model
IsQuoted→independent_quote_model x z g f q hz hg k =
    let e = g * (10_000 - f) / 10_000 in
    let same = mod_fits e (effective_fits g f hg) in
    let e_positive : 0 < e = omega (arith, k.effective, k.effective_positive) in
    inputs_pass x z g f _ k.reserve_in_positive (omega (arith, k.output_left))
      (input_positive g (10_000 - f) e_positive) k.fee_below_one k.reserve_fits
    ∙ ap (priced_quote x z g) same
    ∙ priced_quote-eq x z g e q hz e_positive k.effective k.split
        (subst (λ e. q.amount_out ≡ z * e / (x + e)) k.effective k.priced) k.output_positive
        k.output_left

-- For reserves and an input of 64 bits the exact-input quote answers what the one-pass
-- reference model of the engine's tests answers, and nothing where that answers nothing.
pub quote_exact_in_agrees :
    (reserve_in reserve_out gross_input lp_fee_bps : ℕ)
    → IsU64 reserve_in
    → IsU64 reserve_out
    → IsU64 gross_input
    → answered (quote_exact_in reserve_in reserve_out gross_input lp_fee_bps)
      ≡ independent_quote_model reserve_in reserve_out gross_input lp_fee_bps
quote_exact_in_agrees x z g f hx hz hg =
    answered-eq (quote_exact_in x z g f) (independent_quote_model x z g f)
      (λ q h.
        IsQuoted→independent_quote_model x z g f q hz hg (quote_exact_in→IsQuoted x z g f q h))
      (λ q h.
        IsQuoted→quote_exact_in x z g f q hx hz hg
          (independent_quote_model→IsQuoted x z g f hx hz hg h))
