-- ===== src/Core/Lifecycle.antt =====
-- Sequences of the instructions of programs/core/src/lib.rs on one market: initialization, then
-- deposits, executions, and token transfers by anybody into the vaults.
use programmable_solana.Base.{
  ℕ, ◌+◌, ◌-◌, ◌≤◌, ◌≡◌, ◌∙◌, ap, ok, ◌==◌, if◌then◌else◌, Bool-cases, inl, inr, arith,
}
use mathlib.Core.Path.{subst}
use programmable_solana.Core.State.{DomainV0, FeeLedgerV0}
use programmable_solana.Core.Runtime.{Runtime, Context, World}
use programmable_solana.Core.Initialize.{
  InitializeMarketDomainV0, InitializeMarketDomainV0Args, Initialized, initialize_market_domain,
}
use programmable_solana.Core.Initialize.Canonical.{
  FindsDerived, initialize_market_domain-IsCanonical,
}
use programmable_solana.Core.Deposit.{DepositV0, DepositV0Args, Deposited, handle_deposit_v0}
use programmable_solana.Core.Deposit.Safety.{
  IsExactDeposit, credited, handle_deposit_v0-IsExactDeposit,
}
use programmable_solana.Core.Execute.{
  ExecuteEngineProbeV0, ExecuteEngineProbeV0Args, Executed, handle_execute_engine_probe_v0,
}
use programmable_solana.Core.Execute.Fairness.{
  IsFairSwap, swapped, charged, handle_execute_engine_probe_v0-IsFairSwap,
}

-- What the chain holds of a market between instructions: its domain, its fee ledger, and the raw
-- amounts of the three vaults.
pub record Holdings : Type 0 where
  pub domain : DomainV0
  pub fee_ledger : FeeLedgerV0
  pub vault_a : ℕ
  pub vault_b : ℕ
  pub fee_vault : ℕ

abbrev pub vault_of : ℕ → Holdings → ℕ
vault_of index s = if index == 0 then s.vault_a else s.vault_b

abbrev pub deposited : ℕ → DepositV0 → Holdings → Holdings
deposited index after s =
    if index == 0
    then record s { domain = after.domain.content; vault_a = after.domain_vault.content.amount }
    else record s { domain = after.domain.content; vault_b = after.domain_vault.content.amount }

abbrev pub executed : ExecuteEngineProbeV0 → Holdings
executed after = record {
  domain = after.domain.content;
  fee_ledger = after.fee_ledger.content;
  vault_a = after.vault_a.content.amount;
  vault_b = after.vault_b.content.amount;
  fee_vault = after.fee_vault.content.amount;
}

-- The holdings that an instruction finds are those of the accounts that it is given.
pub record Finds (s : Holdings) (accounts : ExecuteEngineProbeV0) : Type 0 where
  pub domain : accounts.domain.content ≡ s.domain
  pub fee_ledger : accounts.fee_ledger.content ≡ s.fee_ledger
  pub vault_a : accounts.vault_a.content.amount ≡ s.vault_a
  pub vault_b : accounts.vault_b.content.amount ≡ s.vault_b
  pub fee_vault : accounts.fee_vault.content.amount ≡ s.fee_vault

-- The holdings that sequences of successful instructions lead to, with the sums that others have
-- sent to the three vaults outside Core.
pub data Reachable (rt : Runtime) : Holdings → ℕ → ℕ → ℕ → Type 0 where
  created :
      (ctx : Context InitializeMarketDomainV0) (args : InitializeMarketDomainV0Args) (w : World)
      (r : Initialized)
      → initialize_market_domain rt ctx args w ≡ ok r
      → Reachable rt
          (record {
            domain = r.domain;
            fee_ledger = r.fee_ledger;
            vault_a = 0;
            vault_b = 0;
            fee_vault = 0;
          })
          0
          0
          0
  deposit :
      {s : Holdings} {a b f : ℕ} (ctx : Context DepositV0) (args : DepositV0Args) (w : World)
      (r : Deposited)
      → Reachable rt s a b f
      → ctx.accounts.domain.content ≡ s.domain
      → ctx.accounts.domain_vault.content.amount ≡ vault_of args.asset_index s
      → handle_deposit_v0 rt ctx args w ≡ ok r
      → Reachable rt (deposited args.asset_index r.accounts s) a b f
  execution :
      {s : Holdings} {a b f : ℕ} (ctx : Context ExecuteEngineProbeV0)
      (args : ExecuteEngineProbeV0Args) (w : World) (r : Executed)
      → Reachable rt s a b f
      → Finds s ctx.accounts
      → handle_execute_engine_probe_v0 rt ctx args w ≡ ok r
      → Reachable rt (executed r.accounts) a b f
  donation :
      {s : Holdings} {a b f : ℕ} (more_a more_b more_f : ℕ)
      → Reachable rt s a b f
      → Reachable rt
          (record s {
            vault_a = s.vault_a + more_a;
            vault_b = s.vault_b + more_b;
            fee_vault = s.fee_vault + more_f;
          })
          (a + more_a)
          (b + more_b)
          (f + more_f)

-- Each vault holds what is accounted and what others sent, to the unit.
pub record IsConserved (s : Holdings) (a b f : ℕ) : Type 0 where
  pub vault_a : s.vault_a ≡ s.domain.accounted_a + a
  pub vault_b : s.vault_b ≡ s.domain.accounted_b + b
  pub fee_vault : s.fee_vault ≡ s.fee_ledger.accounted_fee_a + f

deposit-IsConserved :
    (s : Holdings) (a b f : ℕ) (args : DepositV0Args) (before after : DepositV0)
    → IsConserved s a b f
    → before.domain.content ≡ s.domain
    → before.domain_vault.content.amount ≡ vault_of args.asset_index s
    → IsExactDeposit args before after
    → IsConserved (deposited args.asset_index after s) a b f
deposit-IsConserved s a b f args before after c d v e =
    let index = args.asset_index in
    let raised = e.domain_credited ∙ ap (credited index args.amount) d in
    let grown : after.domain_vault.content.amount ≡ vault_of index s + args.amount =
      e.vault_credited ∙ ap (λ n. n + args.amount) v in
    elim (Bool-cases (index == 0)) [
      | inl first ↦
          let of_domain = rw first at raised in
          let of_vault = rw first at grown in
          let in_a = ap (λ (d : DomainV0). d.accounted_a) of_domain in
          let in_b = ap (λ (d : DomainV0). d.accounted_b) of_domain in
          rw first (record {
            vault_a = omega (arith, in_a, of_vault, c.vault_a);
            vault_b = omega (arith, in_b, c.vault_b);
            fee_vault = c.fee_vault;
          })
      | inr second ↦
          let of_domain = rw second at raised in
          let of_vault = rw second at grown in
          let in_a = ap (λ (d : DomainV0). d.accounted_a) of_domain in
          let in_b = ap (λ (d : DomainV0). d.accounted_b) of_domain in
          rw second (record {
            vault_a = omega (arith, in_a, c.vault_a);
            vault_b = omega (arith, in_b, of_vault, c.vault_b);
            fee_vault = c.fee_vault;
          })
    ]

execution-IsConserved :
    (s : Holdings) (a b f fee : ℕ) (args : ExecuteEngineProbeV0Args)
    (before after : ExecuteEngineProbeV0)
    → IsConserved s a b f
    → Finds s before
    → IsFairSwap args fee before after
    → IsConserved (executed after) a b f
execution-IsConserved s a b f fee args before after c found x =
    let in_a : after.domain.content.accounted_a ≡ s.domain.accounted_a + args.amount_in =
      ap (λ (d : DomainV0). d.accounted_a)
        (x.domain_swapped ∙ ap (swapped args.amount_in args.amount_out) found.domain) in
    let out_b : after.domain.content.accounted_b ≡ s.domain.accounted_b - args.amount_out =
      ap (λ (d : DomainV0). d.accounted_b)
        (x.domain_swapped ∙ ap (swapped args.amount_in args.amount_out) found.domain) in
    let in_fee : after.fee_ledger.content.accounted_fee_a ≡ s.fee_ledger.accounted_fee_a + fee =
      ap (λ (l : FeeLedgerV0). l.accounted_fee_a)
        (x.fee_ledger_charged ∙ ap (charged fee) found.fee_ledger) in
    let enough : args.amount_out ≤ s.domain.accounted_b =
      subst (λ (d : DomainV0). args.amount_out ≤ d.accounted_b) found.domain x.output_accounted in
    record {
      vault_a = omega (arith, in_a, x.vault_a_credited, found.vault_a, c.vault_a);
      vault_b = omega (arith, out_b, enough, x.vault_b_debited, found.vault_b, c.vault_b);
      fee_vault = omega (arith, in_fee, x.fee_vault_credited, found.fee_vault, c.fee_vault);
    }

module _ (rt : Runtime) (finds : FindsDerived rt) where
  -- In every state that a successful initialization, then successful deposits, executions and
  -- outside transfers into the vaults, in any order, lead to, each of the three vaults holds
  -- exactly what Core accounts for it and what was sent from outside, where the address search
  -- returns derived addresses and each instruction is given the domain, the ledger and the
  -- vaults as they stand.
  pub Reachable-IsConserved :
      (s : Holdings) (a b f : ℕ) → Reachable rt s a b f → IsConserved s a b f
  Reachable-IsConserved s a b f (created ctx args w r h) =
      let k = initialize_market_domain-IsCanonical rt finds ctx args w r h in
      record {
        vault_a = omega (arith, k.nothing_a);
        vault_b = omega (arith, k.nothing_b);
        fee_vault = omega (arith, k.nothing_fee);
      }
  Reachable-IsConserved s' a b f (deposit {s = s} ctx args w r before d v h) =
      deposit-IsConserved s a b f args ctx.accounts r.accounts
        (Reachable-IsConserved s a b f before) d v
        (handle_deposit_v0-IsExactDeposit rt ctx args w r h)
  Reachable-IsConserved s' a b f (execution {s = s} ctx args w r before found h) =
      execution-IsConserved s a b f r.event.protocol_fee args ctx.accounts r.accounts
        (Reachable-IsConserved s a b f before) found
        (handle_execute_engine_probe_v0-IsFairSwap rt ctx args w r h)
  Reachable-IsConserved s' a' b' f'
        (donation {s = s} {a = a} {b = b} {f = f} more_a more_b more_f before) =
      let c = Reachable-IsConserved s a b f before in
      record {
        vault_a = omega (arith, c.vault_a);
        vault_b = omega (arith, c.vault_b);
        fee_vault = omega (arith, c.fee_vault);
      }
