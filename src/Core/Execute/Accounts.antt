-- ===== src/Core/Execute/Accounts.antt =====
-- The arguments, the account schema and the intermediate results of execute_engine_probe_v0.rs.
use programmable_solana.Base.{ℕ, List, [], ◌∷◌}
use programmable_solana.Wire.Probe.{EngineReceipt}
use programmable_solana.Core.State.{MarketV0, DomainV0, FeeLedgerV0}
use programmable_solana.Core.Events.{EngineProbeExecutedV0}
use programmable_solana.Core.Runtime.{AccountInfo, Account, TokenAccount, Mint, World}

pub record ExecuteEngineProbeV0Args : Type 0 where
  pub amount_in : ℕ
  pub amount_out : ℕ
  pub max_total_input_debit : ℕ
  pub min_output_credit : ℕ
  pub max_protocol_fee : ℕ
  pub expires_at_slot : ℕ

pub record ExecuteEngineProbeV0 : Type 0 where
  pub user : AccountInfo
  pub market : Account MarketV0
  pub domain : Account DomainV0
  pub fee_ledger : Account FeeLedgerV0
  pub mint_a : Account Mint
  pub mint_b : Account Mint
  pub user_source_a : Account TokenAccount
  pub user_destination_b : Account TokenAccount
  pub vault_a : Account TokenAccount
  pub vault_b : Account TokenAccount
  pub fee_vault : Account TokenAccount
  pub engine_program : AccountInfo
  pub engine_state : AccountInfo
  pub instructions_sysvar : AccountInfo
  pub token_program : AccountInfo

-- The accounts as the instruction leaves them, the world after its calls, and its event.
pub record Executed : Type 0 where
  pub accounts : ExecuteEngineProbeV0
  pub world : World
  pub event : EngineProbeExecutedV0

-- What the checked arithmetic computes before the engine is called.
pub record Quote : Type 0 where
  pub protocol_fee : ℕ
  pub total_input_debit : ℕ
  pub post_accounted_a : ℕ
  pub post_accounted_b : ℕ
  pub post_accounted_fee_a : ℕ

-- What the call of the engine brings back.
pub record Consulted : Type 0 where
  pub plan_digest : ℕ
  pub receipt : EngineReceipt
  pub world : World

abbrev pub execute_roles : ExecuteEngineProbeV0 → List ℕ
execute_roles accounts =
    accounts.user.key ∷ accounts.market.info.key ∷ accounts.domain.info.key
    ∷ accounts.fee_ledger.info.key ∷ accounts.mint_a.info.key ∷ accounts.mint_b.info.key
    ∷ accounts.user_source_a.info.key ∷ accounts.user_destination_b.info.key
    ∷ accounts.vault_a.info.key ∷ accounts.vault_b.info.key ∷ accounts.fee_vault.info.key
    ∷ accounts.engine_program.key ∷ accounts.engine_state.key ∷ accounts.instructions_sysvar.key
    ∷ accounts.token_program.key ∷ []

-- The amounts that a settlement moves.
pub record Movement : Type 0 where
  pub amount_in : ℕ
  pub amount_out : ℕ
  pub protocol_fee : ℕ
  pub total_input_debit : ℕ

abbrev pub movement : ExecuteEngineProbeV0Args → Quote → Movement
movement args q = record {
  amount_in = args.amount_in;
  amount_out = args.amount_out;
  protocol_fee = q.protocol_fee;
  total_input_debit = q.total_input_debit;
}
