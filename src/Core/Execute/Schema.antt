-- ===== src/Core/Execute/Schema.antt =====
-- What the account schema of execute_engine_probe_v0.rs establishes, before its handler runs: the
-- accounts are those that the market names.
use programmable_solana.Base.{◌≡◌, true, ok, ==_eq, ℕ}
use programmable_solana.Core.Constants.{instructions_sysvar_id}
use programmable_solana.Core.Error.{>>-eq-ok, require_anchor-eq-ok, require_eq→eq}
use programmable_solana.Core.Runtime.{Runtime, AccountInfo}
use programmable_solana.Core.Constraints.{signer, mutable, address_is, program}
use programmable_solana.Core.Execute.{ExecuteEngineProbeV0, check_execute_engine_probe_v0}

-- The mints, the engine program and its state are the market's, the state is owned by that program
-- and writable, the user signs, and the sysvar and the token program are Solana's.
pub record IsMarketEnvelope (rt : Runtime) (accounts : ExecuteEngineProbeV0) : Type 0 where
  pub user_signs : accounts.user.is_signer ≡ true
  pub mint_a_named : accounts.mint_a.info.key ≡ accounts.market.content.mint_a
  pub mint_b_named : accounts.mint_b.info.key ≡ accounts.market.content.mint_b
  pub engine_named : accounts.engine_program.key ≡ accounts.market.content.engine_program
  pub state_named : accounts.engine_state.key ≡ accounts.market.content.engine_state
  pub state_owned : accounts.engine_state.owner ≡ accounts.market.content.engine_program
  pub state_writable : accounts.engine_state.is_writable ≡ true
  pub sysvar_named : accounts.instructions_sysvar.key ≡ instructions_sysvar_id
  pub token_program_named : accounts.token_program.key ≡ rt.token_program_id
  pub token_program_executable : accounts.token_program.executable ≡ true

signer-eq-ok : (info : AccountInfo) → signer info ≡ ok tt → info.is_signer ≡ true
unfolding signer
signer-eq-ok info h = require_anchor-eq-ok _ _ h

mutable-eq-ok : (info : AccountInfo) → mutable info ≡ ok tt → info.is_writable ≡ true
unfolding mutable
mutable-eq-ok info h = require_anchor-eq-ok _ _ h

address_is-eq-ok : (info : AccountInfo) (a : ℕ) → address_is info a ≡ ok tt → info.key ≡ a
unfolding address_is
address_is-eq-ok info a h = ==_eq _ _ (require_anchor-eq-ok _ _ h)

program-eq-ok :
    (info : AccountInfo) (a : ℕ)
    → program info a ≡ ok tt
    → (info.key ≡ a) × (info.executable ≡ true)
unfolding program
program-eq-ok info a h =
    let (key, executable) = >>-eq-ok _ _ h in
    (==_eq _ _ (require_anchor-eq-ok _ _ key), require_anchor-eq-ok _ _ executable)

pub check_execute_engine_probe_v0→IsMarketEnvelope :
    (rt : Runtime) (accounts : ExecuteEngineProbeV0)
    → check_execute_engine_probe_v0 rt accounts ≡ ok tt
    → IsMarketEnvelope rt accounts
unfolding check_execute_engine_probe_v0
check_execute_engine_probe_v0→IsMarketEnvelope rt accounts h =
    let (user, h) = >>-eq-ok _ _ h in
    let (market, h) = >>-eq-ok _ _ h in
    let (domain_written, h) = >>-eq-ok _ _ h in
    let (domain, h) = >>-eq-ok _ _ h in
    let (ledger_written, h) = >>-eq-ok _ _ h in
    let (ledger, h) = >>-eq-ok _ _ h in
    let (mint_a, h) = >>-eq-ok _ _ h in
    let (mint_b, h) = >>-eq-ok _ _ h in
    let (source_written, h) = >>-eq-ok _ _ h in
    let (source_mint, h) = >>-eq-ok _ _ h in
    let (source_owner, h) = >>-eq-ok _ _ h in
    let (destination_written, h) = >>-eq-ok _ _ h in
    let (destination_mint, h) = >>-eq-ok _ _ h in
    let (a_written, h) = >>-eq-ok _ _ h in
    let (a_derived, h) = >>-eq-ok _ _ h in
    let (a_mint, h) = >>-eq-ok _ _ h in
    let (a_owner, h) = >>-eq-ok _ _ h in
    let (b_written, h) = >>-eq-ok _ _ h in
    let (b_derived, h) = >>-eq-ok _ _ h in
    let (b_mint, h) = >>-eq-ok _ _ h in
    let (b_owner, h) = >>-eq-ok _ _ h in
    let (fee_written, h) = >>-eq-ok _ _ h in
    let (fee_derived, h) = >>-eq-ok _ _ h in
    let (fee_mint, h) = >>-eq-ok _ _ h in
    let (fee_owner, h) = >>-eq-ok _ _ h in
    let (engine, h) = >>-eq-ok _ _ h in
    let (state_written, h) = >>-eq-ok _ _ h in
    let (state, h) = >>-eq-ok _ _ h in
    let (state_owner, h) = >>-eq-ok _ _ h in
    let (sysvar, token) = >>-eq-ok _ _ h in
    let (token_named, token_executable) = program-eq-ok _ _ token in
    record {
      user_signs = signer-eq-ok _ user;
      mint_a_named = require_eq→eq _ _ _ mint_a;
      mint_b_named = require_eq→eq _ _ _ mint_b;
      engine_named = require_eq→eq _ _ _ engine;
      state_named = require_eq→eq _ _ _ state;
      state_owned = require_eq→eq _ _ _ state_owner;
      state_writable = mutable-eq-ok _ state_written;
      sysvar_named = address_is-eq-ok _ _ sysvar;
      token_program_named = token_named;
      token_program_executable = token_executable;
    }
