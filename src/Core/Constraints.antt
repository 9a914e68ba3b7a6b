-- ===== src/Core/Constraints.antt =====
-- The account constraints of `#[derive(Accounts)]`, as the attributes in
-- programs/core/src/instructions state them. Each schema tests its fields in their order.
use programmable_solana.Base.{ℕ, Option, Result, ok_or, ◌==◌}
use programmable_solana.Core.Error.{
  Failure, anchor, require_anchor, ◌>>=◌, ◌>>◌, account_not_signer, invalid_program_id,
  invalid_program_executable, constraint_mut, constraint_seeds, constraint_address,
  constraint_token_mint, constraint_token_owner,
}
use programmable_solana.Core.Runtime.{AccountInfo, TokenAccount, Account}

-- `Signer<'info>`
unfoldable pub signer : AccountInfo → Result Failure (Unit {0})
signer info = require_anchor info.is_signer account_not_signer

-- `#[account(mut)]`
unfoldable pub mutable : AccountInfo → Result Failure (Unit {0})
mutable info = require_anchor info.is_writable constraint_mut

-- `#[account(seeds = [...], bump = ...)]`: the address that the seeds and the bump derive.
unfoldable pub derived : AccountInfo → Option ℕ → Result Failure (Unit {0})
derived info address = do
  expected ← ok_or address (anchor constraint_seeds)
  require_anchor (info.key == expected) constraint_seeds

-- `#[account(token::mint = mint)]` and `#[account(token::authority = authority)]`
unfoldable pub token_mint : Account TokenAccount → AccountInfo → Result Failure (Unit {0})
token_mint account mint = require_anchor (account.content.mint == mint.key) constraint_token_mint

unfoldable pub token_authority : Account TokenAccount → AccountInfo → Result Failure (Unit {0})
token_authority account authority =
    require_anchor (account.content.owner == authority.key) constraint_token_owner

-- `#[account(address = expected)]`
unfoldable pub address_is : AccountInfo → ℕ → Result Failure (Unit {0})
address_is info expected = require_anchor (info.key == expected) constraint_address

-- `Program<'info, T>`
unfoldable pub program : AccountInfo → ℕ → Result Failure (Unit {0})
program info id = do
  require_anchor (info.key == id) invalid_program_id
  require_anchor info.executable invalid_program_executable
