-- ===== src/Core/Examples.antt =====
-- Concrete runs of the instructions in programs/core/src/instructions, under a small runtime.
pub mod Swap
pub mod Addition
pub mod Creation
use programmable_solana.Base.{
  ℕ, ◌+◌, ◌-◌, ◌≡◌, refl, true, false, Option, none, some, List, [], ◌∷◌, ◌++◌, Result, ok, ok_or,
  map_err, ◌==◌, if◌then◌else◌, checked_add_u64, checked_sub_u64,
}
use programmable_solana.Wire.Bytes.{le_bytes, of_le_bytes}
use programmable_solana.Wire.Probe.{EngineReceipt, decode_evaluate_instruction, encode_receipt}
use programmable_solana.Core.Constants.{instructions_sysvar_id}
use programmable_solana.Core.Program.{programmable_core}
use programmable_solana.Core.Error.{Failure, external, ◌>>=◌, ◌>>◌}
use programmable_solana.Core.State.{MarketV0, DomainV0, FeeLedgerV0}
use programmable_solana.Core.Runtime.{
  Runtime, AccountInfo, Account, AccountState, TokenAccount, Mint, Context, World, Transfer,
  Instruction,
}

-- Stand-ins for the address derivation and the hash: the sum of the bytes.
abbrev sum : List ℕ → ℕ
sum [] = 0
sum (b ∷ bs) = b + sum bs

abbrev sum_all : List (List ℕ) → ℕ
sum_all [] = 1_000
sum_all (seed ∷ seeds) = sum seed + sum_all seeds

abbrev moved : ℕ → (ℕ → ℕ) → World → World
moved key change w = record w {
  token = λ k.
      if k == key
      then (elim (w.token k) [
        | none ↦ none
        | some account ↦ some (record account { amount = change account.amount })
      ])
      else w.token k;
}

abbrev token_transfer : Transfer → World → Result Failure World
token_transfer t w = ok (moved t.to (λ a. a + t.amount) (moved t.from (λ a. a - t.amount) w))

-- An engine that accepts every plan.
abbrev honest_engine : Instruction → List AccountInfo → World → Result Failure World
honest_engine instruction infos w = do
  request ← map_err (λ _. external 1) (decode_evaluate_instruction instruction.payload)
  receipt ← encode_receipt (record { plan_hash = request.plan_hash; state_sequence = 7 })
  ok (record w { return_data = some (instruction.program_id, receipt) })

abbrev pub small_runtime : Runtime
small_runtime = record {
  program = programmable_core;
  create_program_address = λ seeds. some (sum_all seeds);
  hashv = sum_all;
  native_mint_id = 1;
  token_program_id = 2;
  token_2022_program_id = 7;
  system_program_id = 3;
  find_program_address = λ seeds. (sum_all (seeds ++ ((255 ∷ []) ∷ [])), 255);
  create_account = λ key w. ok w;
  create_token_account = λ key mint authority w. ok w;
  stack_height = 1;
  clock_slot = ok 50;
  transfer_checked = token_transfer;
  invoke = honest_engine;
}

abbrev pub plain : ℕ → ℕ → AccountInfo
plain key owner = record {
  key = key;
  owner = owner;
  is_signer = false;
  is_writable = false;
  executable = false;
}

abbrev pub writable : ℕ → ℕ → AccountInfo
writable key owner = record (plain key owner) { is_writable = true }

abbrev pub authority : ℕ → AccountInfo
authority key = record (writable key 3) { is_signer = true }

abbrev pub executable_program : ℕ → AccountInfo
executable_program key = record (plain key 4) { executable = true }

abbrev pub example_mint : ℕ → Account Mint
example_mint key = record {
  info = plain key 2;
  content = record { decimals = 6; is_initialized = true; freeze_authority = none };
}

abbrev pub holding : ℕ → ℕ → ℕ → TokenAccount
holding mint owner amount = record {
  mint = mint;
  owner = owner;
  amount = amount;
  delegate = none;
  state = AccountState.initialized;
  is_native = none;
  delegated_amount = 0;
  close_authority = none;
}

abbrev pub token_account : ℕ → TokenAccount → Account TokenAccount
token_account key content = record { info = writable key 2; content = content }

-- A market of the mints 21 and 22 with the engine 31 and its state 32.
abbrev pub example_market : MarketV0
example_market = record {
  version = 0;
  bump = 255;
  initializer = 11;
  market_id = 12;
  engine_program = 31;
  engine_state = 32;
  engine_revision = 5;
  mint_a = 21;
  mint_b = 22;
  fee_bps = 30;
  fee_policy_revision = 0;
}

abbrev pub example_domain : DomainV0
example_domain = record {
  version = 0;
  bump = 255;
  vault_a_bump = 255;
  vault_b_bump = 255;
  market = 2133;
  engine_program = 31;
  engine_state = 32;
  engine_revision = 5;
  accounted_a = 10_000;
  accounted_b = 20_000;
}

abbrev pub example_fee_ledger : FeeLedgerV0
example_fee_ledger = record {
  version = 0;
  bump = 255;
  fee_vault_bump = 255;
  market = 2133;
  mint_a = 21;
  accounted_fee_a = 40;
}

abbrev pub market_account : Account MarketV0
market_account = record { info = plain 2133 5; content = example_market }

abbrev pub domain_account : Account DomainV0
domain_account = record { info = writable 2191 5; content = example_domain }

abbrev pub fee_ledger_account : Account FeeLedgerV0
fee_ledger_account = record { info = writable 2556 5; content = example_fee_ledger }

-- The vaults hold more than is accounted.
abbrev pub vault_a : TokenAccount
vault_a = holding 21 2191 10_500

abbrev pub vault_b : TokenAccount
vault_b = holding 22 2191 20_000

abbrev pub fee_vault : TokenAccount
fee_vault = holding 21 2556 40

abbrev pub user_a : TokenAccount
user_a = holding 21 61 5_000

abbrev pub user_b : TokenAccount
user_b = holding 22 61 100

abbrev pub example_world : World
example_world = record {
  token = λ k.
      if k == 2173
      then some vault_a
      else if k == 2174
      then some vault_b
      else if k == 2632
      then some fee_vault
      else if k == 71
      then some user_a
      else if k == 72
      then some user_b
      else none;
  memory = λ k. [];
  return_data = none;
}
