-- ===== src/Core/Execute/Quotes.antt =====
-- What a quote of execute_engine_probe_v0.rs says: the fee, the user's limits, and the accounted
-- balances to be.
use programmable_solana.Base.{
  ℕ, ◌+◌, ◌≤◌, ◌<◌, ◌≡◌, true, ◌&&◌, ltb, ok, IsU64, ok-injective, ok_or-eq-ok,
  checked_add_u64-eq-some, checked_sub_u64-eq-some, tests, arith,
}
use mathlib.Core.Path.{subst}
use programmable_solana.Core.Error.{>>-eq-ok, >>=-eq-ok, require_core-eq-ok}
use programmable_solana.Core.Runtime.{Runtime}
use programmable_solana.Core.Math.{fee_ceil}
use programmable_solana.Core.Execute.{ExecuteEngineProbeV0, ExecuteEngineProbeV0Args, Quote, quote}

-- The fee is the rate of the input rounded up, the totals are exact and fit their words, and the
-- user's limits and the deadline hold.
pub record IsQuote (rt : Runtime) (accounts : ExecuteEngineProbeV0)
    (args : ExecuteEngineProbeV0Args) (q : Quote) : Type 0 where
  pub input_positive : 0 < args.amount_in
  pub output_positive : 0 < args.amount_out
  pub slot : ℕ
  pub slot_read : rt.clock_slot ≡ ok slot
  pub in_time : slot ≤ args.expires_at_slot
  pub output_enough : args.min_output_credit ≤ args.amount_out
  pub output_available : args.amount_out ≤ accounts.domain.content.accounted_b
  pub fee_computed : fee_ceil args.amount_in accounts.market.content.fee_bps ≡ ok q.protocol_fee
  pub fee_allowed : q.protocol_fee ≤ args.max_protocol_fee
  pub debit_total : q.total_input_debit ≡ args.amount_in + q.protocol_fee
  pub debit_allowed : q.total_input_debit ≤ args.max_total_input_debit
  pub debit_fits : IsU64 q.total_input_debit
  pub post_a : q.post_accounted_a ≡ accounts.domain.content.accounted_a + args.amount_in
  pub post_a_fits : IsU64 q.post_accounted_a
  pub post_b : q.post_accounted_b + args.amount_out ≡ accounts.domain.content.accounted_b
  pub post_fee :
      q.post_accounted_fee_a ≡ accounts.fee_ledger.content.accounted_fee_a + q.protocol_fee
  pub post_fee_fits : IsU64 q.post_accounted_fee_a

both_positive : (a b : ℕ) → (ltb 0 a && ltb 0 b) ≡ true → (0 < a) × (0 < b)
both_positive a b h = ground arith

-- A quote that succeeds is in time, of positive amounts, within the user's limits and the
-- accounted liquidity, and its total debit and accounted balances to be are the true sums and
-- difference, the sums within 64 bits.
pub quote→IsQuote :
    (rt : Runtime) (accounts : ExecuteEngineProbeV0) (args : ExecuteEngineProbeV0Args) (q : Quote)
    → quote rt accounts args ≡ ok q
    → IsQuote rt accounts args q
unfolding quote
quote→IsQuote rt accounts args q h =
    let (positive, h) = >>-eq-ok _ _ h in
    let (slot, read, h) = >>=-eq-ok _ _ h in
    let (in_time, h) = >>-eq-ok _ _ h in
    let (enough, h) = >>-eq-ok _ _ h in
    let (available, h) = >>-eq-ok _ _ h in
    let (fee, computed, h) = >>=-eq-ok _ _ h in
    let (allowed, h) = >>-eq-ok _ _ h in
    let (total, t, h) = >>=-eq-ok _ _ h in
    let (limited, h) = >>-eq-ok _ _ h in
    let (post_a, pa, h) = >>=-eq-ok _ _ h in
    let (post_b, pb, h) = >>=-eq-ok _ _ h in
    let (post_fee, pf, h) = >>=-eq-ok _ _ h in
    let (total_eq, total_fits) = checked_add_u64-eq-some _ _ (ok_or-eq-ok _ _ t) in
    let (a_eq, a_fits) = checked_add_u64-eq-some _ _ (ok_or-eq-ok _ _ pa) in
    let (fee_eq, fee_fits) = checked_add_u64-eq-some _ _ (ok_or-eq-ok _ _ pf) in
    let (input_positive, output_positive) = both_positive _ _ (require_core-eq-ok _ _ positive) in
    subst (λ (q : Quote). IsQuote rt accounts args q) (ok-injective h)
      (record {
        input_positive = input_positive;
        output_positive = output_positive;
        slot = slot;
        slot_read = read;
        in_time = omega (tests, require_core-eq-ok _ _ in_time);
        output_enough = omega (tests, require_core-eq-ok _ _ enough);
        output_available = omega (tests, require_core-eq-ok _ _ available);
        fee_computed = computed;
        fee_allowed = omega (tests, require_core-eq-ok _ _ allowed);
        debit_total = total_eq;
        debit_allowed = omega (tests, require_core-eq-ok _ _ limited);
        debit_fits = omega arith;
        post_a = a_eq;
        post_a_fits = omega arith;
        post_b = checked_sub_u64-eq-some _ _ (ok_or-eq-ok _ _ pb);
        post_fee = fee_eq;
        post_fee_fits = omega arith;
      })
