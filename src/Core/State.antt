-- ===== src/Core/State.antt =====
-- programs/core/src/state.rs: the accounts that Core keeps.
use programmable_solana.Base.{ℕ}

pub record MarketV0 : Type 0 where
  pub version : ℕ
  pub bump : ℕ
  pub initializer : ℕ
  pub market_id : ℕ
  pub engine_program : ℕ
  pub engine_state : ℕ
  pub engine_revision : ℕ
  pub mint_a : ℕ
  pub mint_b : ℕ
  pub fee_bps : ℕ
  pub fee_policy_revision : ℕ

pub record DomainV0 : Type 0 where
  pub version : ℕ
  pub bump : ℕ
  pub vault_a_bump : ℕ
  pub vault_b_bump : ℕ
  pub market : ℕ
  pub engine_program : ℕ
  pub engine_state : ℕ
  pub engine_revision : ℕ
  pub accounted_a : ℕ
  pub accounted_b : ℕ

pub record FeeLedgerV0 : Type 0 where
  pub version : ℕ
  pub bump : ℕ
  pub fee_vault_bump : ℕ
  pub market : ℕ
  pub mint_a : ℕ
  pub accounted_fee_a : ℕ
