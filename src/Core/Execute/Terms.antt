-- ===== src/Core/Execute/Terms.antt =====
-- What a plan and a request say of a swap, term by term: the user's arguments, the fee and the
-- accounts that they commit to.
use programmable_solana.Base.{ℕ, ◌≡◌, refl, ap, List, [], ◌∷◌}
use programmable_solana.Wire.Probe.{PlanBinding, EngineRequest}
use programmable_solana.Wire.Probe.Plan
use programmable_solana.Wire.Layout.{FitAll}
use programmable_solana.Core.Constants.{core_id}
use programmable_solana.Core.Execute.{
  ExecuteEngineProbeV0, ExecuteEngineProbeV0Args, plan_binding, engine_request,
}

-- The plan names the program, the accounts, both revisions, the amounts, the user's limits and the
-- accounted balances.
pub record IsPlanOf (accounts : ExecuteEngineProbeV0) (args : ExecuteEngineProbeV0Args) (fee : ℕ)
    (plan : PlanBinding) : Type 0 where
  pub core_program_named : plan.core_program ≡ core_id
  pub market_named : plan.market ≡ accounts.market.info.key
  pub domain_named : plan.domain ≡ accounts.domain.info.key
  pub engine_program_named : plan.engine_program ≡ accounts.engine_program.key
  pub engine_state_named : plan.engine_state ≡ accounts.engine_state.key
  pub user_authority_named : plan.user_authority ≡ accounts.user.key
  pub user_input_named : plan.user_input ≡ accounts.user_source_a.info.key
  pub user_output_named : plan.user_output ≡ accounts.user_destination_b.info.key
  pub mint_in_named : plan.mint_in ≡ accounts.mint_a.info.key
  pub mint_out_named : plan.mint_out ≡ accounts.mint_b.info.key
  pub domain_input_vault_named : plan.domain_input_vault ≡ accounts.vault_a.info.key
  pub domain_output_vault_named : plan.domain_output_vault ≡ accounts.vault_b.info.key
  pub protocol_fee_vault_named : plan.protocol_fee_vault ≡ accounts.fee_vault.info.key
  pub fee_ledger_named : plan.fee_ledger ≡ accounts.fee_ledger.info.key
  pub token_program_named : plan.token_program ≡ accounts.token_program.key
  pub engine_revision_named : plan.engine_revision ≡ accounts.market.content.engine_revision
  pub fee_policy_revision_named :
      plan.fee_policy_revision ≡ accounts.market.content.fee_policy_revision
  pub amount_in_named : plan.amount_in ≡ args.amount_in
  pub amount_out_named : plan.amount_out ≡ args.amount_out
  pub protocol_fee_named : plan.protocol_fee ≡ fee
  pub max_total_input_debit_named : plan.max_total_input_debit ≡ args.max_total_input_debit
  pub min_output_credit_named : plan.min_output_credit ≡ args.min_output_credit
  pub max_protocol_fee_named : plan.max_protocol_fee ≡ args.max_protocol_fee
  pub accounted_input_before_named :
      plan.accounted_input_before ≡ accounts.domain.content.accounted_a
  pub accounted_output_before_named :
      plan.accounted_output_before ≡ accounts.domain.content.accounted_b
  pub accounted_fee_before_named :
      plan.accounted_fee_before ≡ accounts.fee_ledger.content.accounted_fee_a
  pub expires_at_slot_named : plan.expires_at_slot ≡ args.expires_at_slot

-- The request names the digest, the market, the domain, the amounts and the accounted balances.
pub record IsRequestOf (accounts : ExecuteEngineProbeV0) (args : ExecuteEngineProbeV0Args)
    (fee plan_digest : ℕ) (request : EngineRequest) : Type 0 where
  pub digest_named : request.plan_hash ≡ plan_digest
  pub market_named : request.market ≡ accounts.market.info.key
  pub domain_named : request.domain ≡ accounts.domain.info.key
  pub engine_revision_named : request.engine_revision ≡ accounts.market.content.engine_revision
  pub amount_in_named : request.amount_in ≡ args.amount_in
  pub amount_out_named : request.amount_out ≡ args.amount_out
  pub protocol_fee_named : request.protocol_fee ≡ fee
  pub accounted_input_before_named :
      request.accounted_input_before ≡ accounts.domain.content.accounted_a
  pub accounted_output_before_named :
      request.accounted_output_before ≡ accounts.domain.content.accounted_b
  pub accounted_fee_before_named :
      request.accounted_fee_before ≡ accounts.fee_ledger.content.accounted_fee_a

-- The same terms as one list.
abbrev pub swap_terms : ExecuteEngineProbeV0 → ExecuteEngineProbeV0Args → ℕ → List ℕ
swap_terms accounts args fee =
    core_id ∷ accounts.market.info.key ∷ accounts.domain.info.key ∷ accounts.engine_program.key
    ∷ accounts.engine_state.key ∷ accounts.user.key ∷ accounts.user_source_a.info.key
    ∷ accounts.user_destination_b.info.key ∷ accounts.mint_a.info.key ∷ accounts.mint_b.info.key
    ∷ accounts.vault_a.info.key ∷ accounts.vault_b.info.key ∷ accounts.fee_vault.info.key
    ∷ accounts.fee_ledger.info.key ∷ accounts.token_program.key
    ∷ accounts.market.content.engine_revision ∷ accounts.market.content.fee_policy_revision
    ∷ args.amount_in ∷ args.amount_out ∷ fee ∷ args.max_total_input_debit ∷ args.min_output_credit
    ∷ args.max_protocol_fee ∷ accounts.domain.content.accounted_a
    ∷ accounts.domain.content.accounted_b ∷ accounts.fee_ledger.content.accounted_fee_a
    ∷ args.expires_at_slot ∷ []

-- Two swaps with the same accounts, arguments, fee, revisions and accounted balances.
pub record IsSameSwap (accounts accounts' : ExecuteEngineProbeV0)
    (args args' : ExecuteEngineProbeV0Args) (fee fee' : ℕ) : Type 0 where
  pub same_market : accounts.market.info.key ≡ accounts'.market.info.key
  pub same_domain : accounts.domain.info.key ≡ accounts'.domain.info.key
  pub same_engine_program : accounts.engine_program.key ≡ accounts'.engine_program.key
  pub same_engine_state : accounts.engine_state.key ≡ accounts'.engine_state.key
  pub same_user_authority : accounts.user.key ≡ accounts'.user.key
  pub same_user_input : accounts.user_source_a.info.key ≡ accounts'.user_source_a.info.key
  pub same_user_output :
      accounts.user_destination_b.info.key ≡ accounts'.user_destination_b.info.key
  pub same_mint_in : accounts.mint_a.info.key ≡ accounts'.mint_a.info.key
  pub same_mint_out : accounts.mint_b.info.key ≡ accounts'.mint_b.info.key
  pub same_domain_input_vault : accounts.vault_a.info.key ≡ accounts'.vault_a.info.key
  pub same_domain_output_vault : accounts.vault_b.info.key ≡ accounts'.vault_b.info.key
  pub same_protocol_fee_vault : accounts.fee_vault.info.key ≡ accounts'.fee_vault.info.key
  pub same_fee_ledger : accounts.fee_ledger.info.key ≡ accounts'.fee_ledger.info.key
  pub same_token_program : accounts.token_program.key ≡ accounts'.token_program.key
  pub same_engine_revision :
      accounts.market.content.engine_revision ≡ accounts'.market.content.engine_revision
  pub same_fee_policy_revision :
      accounts.market.content.fee_policy_revision ≡ accounts'.market.content.fee_policy_revision
  pub same_amount_in : args.amount_in ≡ args'.amount_in
  pub same_amount_out : args.amount_out ≡ args'.amount_out
  pub same_protocol_fee : fee ≡ fee'
  pub same_max_total_input_debit : args.max_total_input_debit ≡ args'.max_total_input_debit
  pub same_min_output_credit : args.min_output_credit ≡ args'.min_output_credit
  pub same_max_protocol_fee : args.max_protocol_fee ≡ args'.max_protocol_fee
  pub same_accounted_input_before :
      accounts.domain.content.accounted_a ≡ accounts'.domain.content.accounted_a
  pub same_accounted_output_before :
      accounts.domain.content.accounted_b ≡ accounts'.domain.content.accounted_b
  pub same_accounted_fee_before :
      accounts.fee_ledger.content.accounted_fee_a ≡ accounts'.fee_ledger.content.accounted_fee_a
  pub same_expires_at_slot : args.expires_at_slot ≡ args'.expires_at_slot

pub plan_binding-IsPlanOf :
    (accounts : ExecuteEngineProbeV0) (args : ExecuteEngineProbeV0Args) (fee : ℕ)
    → IsPlanOf accounts args fee (plan_binding accounts args fee)
unfolding plan_binding
plan_binding-IsPlanOf accounts args fee = record {
  core_program_named = refl;
  market_named = refl;
  domain_named = refl;
  engine_program_named = refl;
  engine_state_named = refl;
  user_authority_named = refl;
  user_input_named = refl;
  user_output_named = refl;
  mint_in_named = refl;
  mint_out_named = refl;
  domain_input_vault_named = refl;
  domain_output_vault_named = refl;
  protocol_fee_vault_named = refl;
  fee_ledger_named = refl;
  token_program_named = refl;
  engine_revision_named = refl;
  fee_policy_revision_named = refl;
  amount_in_named = refl;
  amount_out_named = refl;
  protocol_fee_named = refl;
  max_total_input_debit_named = refl;
  min_output_credit_named = refl;
  max_protocol_fee_named = refl;
  accounted_input_before_named = refl;
  accounted_output_before_named = refl;
  accounted_fee_before_named = refl;
  expires_at_slot_named = refl;
}

pub engine_request-IsRequestOf :
    (accounts : ExecuteEngineProbeV0) (args : ExecuteEngineProbeV0Args) (fee plan_digest : ℕ)
    → IsRequestOf accounts args fee plan_digest (engine_request accounts args fee plan_digest)
unfolding engine_request
engine_request-IsRequestOf accounts args fee plan_digest = record {
  digest_named = refl;
  market_named = refl;
  domain_named = refl;
  engine_revision_named = refl;
  amount_in_named = refl;
  amount_out_named = refl;
  protocol_fee_named = refl;
  accounted_input_before_named = refl;
  accounted_output_before_named = refl;
  accounted_fee_before_named = refl;
}

-- Equal plans are plans of the same swap.
pub plan_binding→IsSameSwap :
    (accounts accounts' : ExecuteEngineProbeV0) (args args' : ExecuteEngineProbeV0Args)
    (fee fee' : ℕ)
    → plan_binding accounts args fee ≡ plan_binding accounts' args' fee'
    → IsSameSwap accounts accounts' args args' fee fee'
unfolding plan_binding
plan_binding→IsSameSwap accounts accounts' args args' fee fee' e = record {
  same_market = ap (λ (p : PlanBinding). p.market) e;
  same_domain = ap (λ (p : PlanBinding). p.domain) e;
  same_engine_program = ap (λ (p : PlanBinding). p.engine_program) e;
  same_engine_state = ap (λ (p : PlanBinding). p.engine_state) e;
  same_user_authority = ap (λ (p : PlanBinding). p.user_authority) e;
  same_user_input = ap (λ (p : PlanBinding). p.user_input) e;
  same_user_output = ap (λ (p : PlanBinding). p.user_output) e;
  same_mint_in = ap (λ (p : PlanBinding). p.mint_in) e;
  same_mint_out = ap (λ (p : PlanBinding). p.mint_out) e;
  same_domain_input_vault = ap (λ (p : PlanBinding). p.domain_input_vault) e;
  same_domain_output_vault = ap (λ (p : PlanBinding). p.domain_output_vault) e;
  same_protocol_fee_vault = ap (λ (p : PlanBinding). p.protocol_fee_vault) e;
  same_fee_ledger = ap (λ (p : PlanBinding). p.fee_ledger) e;
  same_token_program = ap (λ (p : PlanBinding). p.token_program) e;
  same_engine_revision = ap (λ (p : PlanBinding). p.engine_revision) e;
  same_fee_policy_revision = ap (λ (p : PlanBinding). p.fee_policy_revision) e;
  same_amount_in = ap (λ (p : PlanBinding). p.amount_in) e;
  same_amount_out = ap (λ (p : PlanBinding). p.amount_out) e;
  same_protocol_fee = ap (λ (p : PlanBinding). p.protocol_fee) e;
  same_max_total_input_debit = ap (λ (p : PlanBinding). p.max_total_input_debit) e;
  same_min_output_credit = ap (λ (p : PlanBinding). p.min_output_credit) e;
  same_max_protocol_fee = ap (λ (p : PlanBinding). p.max_protocol_fee) e;
  same_accounted_input_before = ap (λ (p : PlanBinding). p.accounted_input_before) e;
  same_accounted_output_before = ap (λ (p : PlanBinding). p.accounted_output_before) e;
  same_accounted_fee_before = ap (λ (p : PlanBinding). p.accounted_fee_before) e;
  same_expires_at_slot = ap (λ (p : PlanBinding). p.expires_at_slot) e;
}

-- Terms that fit the fields' types make a valid plan.
pub plan_binding-IsValid :
    (accounts : ExecuteEngineProbeV0) (args : ExecuteEngineProbeV0Args) (fee : ℕ)
    → FitAll Plan.widths (swap_terms accounts args fee)
    → Plan.IsValid (plan_binding accounts args fee)
unfolding plan_binding
plan_binding-IsValid accounts args fee v = v
