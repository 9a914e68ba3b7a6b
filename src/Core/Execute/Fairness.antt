-- ===== src/Core/Execute/Fairness.antt =====
-- What a successful execution has done, whatever the engine and the token program do.
use programmable_solana.Base.{ℕ, ◌+◌, ◌-◌, ◌*◌, ◌≤◌, ◌<◌, ◌≡◌, ok, IsU64, arith}
use mathlib.Core.Path.{subst}
use programmable_solana.Core.State.{DomainV0, FeeLedgerV0}
use programmable_solana.Core.Runtime.{Runtime, Context, World}
use programmable_solana.Core.Math.{fee_ceil, fee_ceil_least}
use programmable_solana.Core.Execute.{
  ExecuteEngineProbeV0, ExecuteEngineProbeV0Args, Executed, Quote, movement, record_balances,
  handle_execute_engine_probe_v0,
}
use programmable_solana.Core.Execute.Admission.{IsCanonical, IsFunded}
use programmable_solana.Core.Execute.Quotes.{IsQuote}
use programmable_solana.Core.Execute.Safety.{
  IsBalanced, IsKept, handle_execute_engine_probe_v0→IsExecuted,
}

-- The domain after a swap, all but the two balances kept.
abbrev pub swapped : ℕ → ℕ → DomainV0 → DomainV0
swapped amount_in amount_out domain = record domain {
  accounted_a = domain.accounted_a + amount_in;
  accounted_b = domain.accounted_b - amount_out;
}

abbrev pub charged : ℕ → FeeLedgerV0 → FeeLedgerV0
charged fee fee_ledger = record fee_ledger { accounted_fee_a = fee_ledger.accounted_fee_a + fee }

-- A swap of `args` at the fee `fee`, from the accounts `before` to the accounts `after`: within the
-- user's limits, at the fixed rate rounded up, with exact token movements that the accounted
-- balances follow, and with every vault still covering what is accounted.
pub record IsFairSwap (args : ExecuteEngineProbeV0Args) (fee : ℕ)
    (before after : ExecuteEngineProbeV0) : Type 0 where
  pub rate_covered : args.amount_in * 30 ≤ fee * 10_000
  pub rate_tight : fee * 10_000 < args.amount_in * 30 + 10_000
  pub fee_allowed : fee ≤ args.max_protocol_fee
  pub debit_allowed : args.amount_in + fee ≤ args.max_total_input_debit
  pub output_enough : args.min_output_credit ≤ args.amount_out
  pub source_debited :
      before.user_source_a.content.amount
      ≡ after.user_source_a.content.amount + (args.amount_in + fee)
  pub destination_credited :
      after.user_destination_b.content.amount
      ≡ before.user_destination_b.content.amount + args.amount_out
  pub vault_a_credited :
      after.vault_a.content.amount ≡ before.vault_a.content.amount + args.amount_in
  pub vault_b_debited :
      before.vault_b.content.amount ≡ after.vault_b.content.amount + args.amount_out
  pub fee_vault_credited : after.fee_vault.content.amount ≡ before.fee_vault.content.amount + fee
  pub domain_swapped :
      after.domain.content ≡ swapped args.amount_in args.amount_out before.domain.content
  pub output_accounted : args.amount_out ≤ before.domain.content.accounted_b
  pub fee_ledger_charged : after.fee_ledger.content ≡ charged fee before.fee_ledger.content
  pub market_kept : after.market ≡ before.market
  pub covered_a : after.domain.content.accounted_a ≤ after.vault_a.content.amount
  pub covered_b : after.domain.content.accounted_b ≤ after.vault_b.content.amount
  pub covered_fee : after.fee_ledger.content.accounted_fee_a ≤ after.fee_vault.content.amount
  pub accounted_a_fits : IsU64 after.domain.content.accounted_a
  pub accounted_fee_fits : IsU64 after.fee_ledger.content.accounted_fee_a

module _ (rt : Runtime) (accounts : ExecuteEngineProbeV0) (args : ExecuteEngineProbeV0Args)
    (q : Quote) (settled : ExecuteEngineProbeV0) where
  domain_follows :
      IsQuote rt accounts args q
      → IsKept accounts settled
      → (record_balances q settled).domain.content
        ≡ swapped args.amount_in args.amount_out accounts.domain.content
  unfolding record_balances
  domain_follows u k =
      let less : q.post_accounted_b ≡ accounts.domain.content.accounted_b - args.amount_out =
        omega (arith, u.post_b) in
      rw (k.domain_kept, u.post_a, less)

  fee_ledger_follows :
      IsQuote rt accounts args q
      → IsKept accounts settled
      → (record_balances q settled).fee_ledger.content
        ≡ charged q.protocol_fee accounts.fee_ledger.content
  unfolding record_balances
  fee_ledger_follows u k = rw (k.fee_ledger_kept, u.post_fee)

  pub fair_of_phases :
      IsCanonical rt accounts
      → IsFunded rt accounts
      → IsQuote rt accounts args q
      → IsBalanced (movement args q) accounts settled
      → IsKept accounts settled
      → IsFairSwap args q.protocol_fee accounts (record_balances q settled)
  unfolding record_balances
  fair_of_phases i f u e k =
      let rate = fee_ceil_least args.amount_in 30 q.protocol_fee (
        subst (λ bps. fee_ceil args.amount_in bps ≡ ok q.protocol_fee) i.bound.fee_bps
          u.fee_computed) in
      record {
        rate_covered = rate.0;
        rate_tight = rate.1;
        fee_allowed = u.fee_allowed;
        debit_allowed = omega (arith, u.debit_total, u.debit_allowed);
        output_enough = u.output_enough;
        source_debited = rw (← u.debit_total) e.source_debited;
        destination_credited = e.destination_credited;
        vault_a_credited = e.vault_a_credited;
        vault_b_debited = e.vault_b_debited;
        fee_vault_credited = e.fee_vault_credited;
        domain_swapped = domain_follows u k;
        output_accounted = u.output_available;
        fee_ledger_charged = fee_ledger_follows u k;
        market_kept = k.market_kept;
        covered_a = omega (arith, u.post_a, e.vault_a_credited, f.covered_a);
        covered_b = omega (arith, u.post_b, e.vault_b_debited, f.covered_b);
        covered_fee = omega (arith, u.post_fee, e.fee_vault_credited, f.covered_fee);
        accounted_a_fits = u.post_a_fits;
        accounted_fee_fits = u.post_fee_fits;
      }

module _ (rt : Runtime) where
  -- An execution that succeeds is a fair swap, whatever the engine and the token program do:
  -- the fee is the least that covers thirty basis points of the input, it, the total debit and
  -- the output are within the user's limits, the five token accounts changed by exactly these
  -- amounts, the accounted balances of the domain and of the fee ledger follow, fit 64 bits and
  -- stay covered by the vaults, and the market and all else of the domain and the ledger are
  -- kept.
  pub handle_execute_engine_probe_v0-IsFairSwap :
      (ctx : Context ExecuteEngineProbeV0) (args : ExecuteEngineProbeV0Args) (w : World)
      (r : Executed)
      → handle_execute_engine_probe_v0 rt ctx args w ≡ ok r
      → IsFairSwap args r.event.protocol_fee ctx.accounts r.accounts
  handle_execute_engine_probe_v0-IsFairSwap ctx args w r h =
      let x = handle_execute_engine_probe_v0→IsExecuted rt ctx args w r h in
      rw (x.recorded, x.event_fee)
        (fair_of_phases rt ctx.accounts args x.q x.settled x.identified.canonical x.funded x.quoted
          x.exact x.kept)
