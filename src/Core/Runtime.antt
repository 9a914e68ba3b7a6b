-- ===== src/Core/Runtime.antt =====
-- What the Core program sees of Solana: accounts, token accounts, and the calls that leave the
-- program. The code behind the calls is not part of the repository: it is the record `Runtime`,
-- which also names the program that runs.
use programmable_solana.Base.{ℕ, Bool, true, false, Option, none, some, List, Result, ok, ok_or}
use programmable_solana.Core.Program.{Program}
use programmable_solana.Core.Error.{Failure, anchor, ◌>>=◌, account_did_not_deserialize}

-- `AccountInfo`: the address, the owner, and the privileges of this call.
pub record AccountInfo : Type 0 where
  pub key : ℕ
  pub owner : ℕ
  pub is_signer : Bool
  pub is_writable : Bool
  pub executable : Bool

-- `spl_token::state::AccountState`, `Account` and `Mint`, as far as Core reads them.
pub data AccountState : Type 0 where
  uninitialized : AccountState
  initialized : AccountState
  frozen : AccountState

pub record TokenAccount : Type 0 where
  pub mint : ℕ
  pub owner : ℕ
  pub amount : ℕ
  pub delegate : Option ℕ
  pub state : AccountState
  pub is_native : Option ℕ
  pub delegated_amount : ℕ
  pub close_authority : Option ℕ

pub record Mint : Type 0 where
  pub decimals : ℕ
  pub is_initialized : Bool
  pub freeze_authority : Option ℕ

-- `Box<Account<'info, T>>`: the account and its deserialized content.
pub record Account (T : Type 0) : Type 0 where
  pub info : AccountInfo
  pub content : T

-- `Context<A>`: the accounts of the instruction's schema, and those supplied beyond it.
pub record Context (A : Type 0) : Type 0 where
  pub accounts : A
  pub remaining_accounts : List AccountInfo

-- What a cross-program call can change: the token accounts, the data of other accounts, and the
-- return data that the last call set, with the program that set it.
pub record World : Type 0 where
  pub token : ℕ → Option TokenAccount
  pub memory : ℕ → List ℕ
  pub return_data : Option (ℕ × List ℕ)

-- `CpiContext` with `TransferChecked`: `signer_seeds` is empty for `CpiContext::new`.
pub record Transfer : Type 0 where
  pub from : ℕ
  pub mint : ℕ
  pub to : ℕ
  pub authority : ℕ
  pub signer_seeds : List (List (List ℕ))
  pub amount : ℕ
  pub decimals : ℕ

-- `AccountMeta` and `Instruction`.
pub record AccountMeta : Type 0 where
  pub pubkey : ℕ
  pub is_signer : Bool
  pub is_writable : Bool

pub record Instruction : Type 0 where
  pub program_id : ℕ
  pub accounts : List AccountMeta
  pub payload : List ℕ

pub record Runtime : Type 0 where
  -- The constants of the program that runs.
  pub program : Program
  -- `Pubkey::create_program_address(seeds, &ID)`, the hash, and the ids of the token crate.
  pub create_program_address : List (List ℕ) → Option ℕ
  pub hashv : List (List ℕ) → ℕ
  pub native_mint_id : ℕ
  pub token_program_id : ℕ
  pub token_2022_program_id : ℕ
  pub system_program_id : ℕ
  -- `Pubkey::find_program_address(seeds, &ID)`: an address and its bump, and the calls by which
  -- `init` creates an account, and one of the token program with its mint and authority.
  pub find_program_address : List (List ℕ) → ℕ × ℕ
  pub create_account : ℕ → World → Result Failure World
  pub create_token_account : ℕ → ℕ → ℕ → World → Result Failure World
  -- `get_stack_height()` and `Clock::get()`.
  pub stack_height : ℕ
  pub clock_slot : Result Failure ℕ
  -- `token::transfer_checked` of the program `Token::id()`, and `invoke` with its account infos.
  pub transfer_checked : Transfer → World → Result Failure World
  pub invoke : Instruction → List AccountInfo → World → Result Failure World

-- `TRANSACTION_LEVEL_STACK_HEIGHT`
abbrev pub transaction_level_stack_height : ℕ
transaction_level_stack_height = 1

-- `account.reload()?`
unfoldable pub reload : World → Account TokenAccount → Result Failure (Account TokenAccount)
reload w account = do
  fresh ← ok_or (w.token account.info.key) (anchor account_did_not_deserialize)
  ok (record account { content = fresh })

abbrev pub is_none {ℓ} : {A : Type ℓ} → Option A → Bool
is_none none = true
is_none (some a) = false

abbrev pub is_initialized_state : AccountState → Bool
is_initialized_state initialized = true
is_initialized_state _ = false

abbrev pub is_frozen_state : AccountState → Bool
is_frozen_state frozen = true
is_frozen_state _ = false
