-- ===== src/Cpmm/Monotone.antt =====
-- How the quotes of quote_exact_in move with the input and with the fee.
use programmable_solana.Base.{ℕ, ◌+◌, ◌-◌, ◌*◌, ◌/◌, ◌≤◌, ◌<◌, ◌≡◌, sym, ok, arith}
use mathlib.Core.Path.{subst}
use programmable_solana.Cpmm.{CpmmQuote, quote_exact_in}
use programmable_solana.Cpmm.Quoted.{quote_exact_in→IsQuoted}

product_le : (a b m n : ℕ) → a ≤ b → m ≤ n → a * m ≤ b * n
product_le a b m n h k = grind arith

quotient_le : (n m d : ℕ) → n ≤ m → n / d ≤ m / d
quotient_le n m d h = grind arith

-- `o` is a quotient by `x + e`, so it stays a candidate for the quotient by `x + e'`.
still_below :
    (x e e' o left : ℕ) → o * (x + e) ≤ (o + left) * e → e ≤ e' → o * (x + e') ≤ (o + left) * e'
still_below x e e' o left h k = grind arith

le_quotient : (n d q : ℕ) → 0 < d → q * d ≤ n → q ≤ n / d
le_quotient n d q h k = grind arith

below_quotient : (n d q : ℕ) → q ≡ n / d → q * d ≤ n
below_quotient n d q e = grind arith

-- The pricing fraction grows with the effective input.
price_le :
    (x z e e' o o' : ℕ)
    → 0 < x
    → o ≡ z * e / (x + e)
    → o < z
    → o' ≡ z * e' / (x + e')
    → e ≤ e'
    → o ≤ o'
price_le x z e e' o o' positive priced bounded priced' h =
    let left = z - o in
    let whole : z ≡ o + left = omega arith in
    let below = subst (λ n. o * (x + e) ≤ n * e) whole (below_quotient (z * e) (x + e) o priced) in
    let stays =
      subst (λ n. o * (x + e') ≤ n * e') (sym whole) (still_below x e e' o left below h) in
    subst (λ n. o ≤ n) (sym priced') (le_quotient (z * e') (x + e') o (omega arith) stays)

-- Of two successful quotes on the same reserves, the one with no less input and no more fee
-- gives no less output.
pub quote_exact_in_monotone :
    (reserve_in reserve_out gross_input more_input lp_fee_bps less_fee_bps : ℕ) (q r : CpmmQuote)
    → quote_exact_in reserve_in reserve_out gross_input lp_fee_bps ≡ ok q
    → quote_exact_in reserve_in reserve_out more_input less_fee_bps ≡ ok r
    → gross_input ≤ more_input
    → less_fee_bps ≤ lp_fee_bps
    → q.amount_out ≤ r.amount_out
quote_exact_in_monotone reserve_in reserve_out gross_input more_input lp_fee_bps less_fee_bps q r h
      k more less =
    let a = quote_exact_in→IsQuoted reserve_in reserve_out gross_input lp_fee_bps q h in
    let b = quote_exact_in→IsQuoted reserve_in reserve_out more_input less_fee_bps r k in
    let products =
      product_le gross_input more_input (10_000 - lp_fee_bps) (10_000 - less_fee_bps) more
        (omega arith) in
    let inputs =
      quotient_le (gross_input * (10_000 - lp_fee_bps)) (more_input * (10_000 - less_fee_bps))
        10_000 products in
    price_le reserve_in reserve_out q.effective_input r.effective_input q.amount_out r.amount_out
      a.reserve_in_positive a.priced a.output_left b.priced
      (omega (arith, a.effective, b.effective, inputs))
