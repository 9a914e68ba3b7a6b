-- ===== src/Core/Events.antt =====
-- programs/core/src/events.rs: what the instructions emit.
use programmable_solana.Base.{ℕ}

pub record MarketDomainInitializedV0 : Type 0 where
  pub market : ℕ
  pub domain : ℕ
  pub engine_program : ℕ
  pub engine_state : ℕ
  pub engine_revision : ℕ
  pub mint_a : ℕ
  pub mint_b : ℕ
  pub fee_ledger : ℕ
  pub fee_bps : ℕ

pub record LiquidityDepositedV0 : Type 0 where
  pub market : ℕ
  pub domain : ℕ
  pub provider : ℕ
  pub mint : ℕ
  pub asset_index : ℕ
  pub amount : ℕ
  pub post_accounted_balance : ℕ

pub record EngineProbeExecutedV0 : Type 0 where
  pub market : ℕ
  pub domain : ℕ
  pub engine_program : ℕ
  pub engine_state : ℕ
  pub user : ℕ
  pub mint_a : ℕ
  pub mint_b : ℕ
  pub amount_in : ℕ
  pub amount_out : ℕ
  pub protocol_fee : ℕ
  pub plan_digest : ℕ
  pub engine_sequence : ℕ
  pub post_accounted_a : ℕ
  pub post_accounted_b : ℕ
  pub post_accounted_fee_a : ℕ
