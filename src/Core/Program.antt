-- ===== src/Core/Program.antt =====
-- The constants in which the repository's three Core programs differ: programs/core and the two
-- experiments' cores have the same state, validation, initialization and deposit, at their own
-- program id and seeds.
use programmable_solana.Base.{ℕ, List, []}
use programmable_solana.Core.Constants.{
  core_id, market_seed_v0, domain_seed_v0, vault_seed_v0, fee_ledger_seed_v0, fee_vault_seed_v0,
}

-- `own_role` is what the program adds to the roles of an initialization and of a deposit.
pub record Program : Type 0 where
  pub id : ℕ
  pub market_seed : List ℕ
  pub domain_seed : List ℕ
  pub vault_seed : List ℕ
  pub fee_ledger_seed : List ℕ
  pub fee_vault_seed : List ℕ
  pub own_role : List ℕ

-- programs/core
abbrev pub programmable_core : Program
programmable_core = record {
  id = core_id;
  market_seed = market_seed_v0;
  domain_seed = domain_seed_v0;
  vault_seed = vault_seed_v0;
  fee_ledger_seed = fee_ledger_seed_v0;
  fee_vault_seed = fee_vault_seed_v0;
  own_role = [];
}
