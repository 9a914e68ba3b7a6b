-- ===== src/Core/Examples/Swap.antt =====
-- A swap on the example market, and what the theorems say of it.
use programmable_solana.Base.{
  ℕ, ◌+◌, ◌*◌, ◌≤◌, ◌<◌, ◌⊎◌, IsU64, arith, ◌≡◌, ◌∙◌, refl, [], ok, ok_or, checked_add_u64,
  checked_sub_u64, checked_mul_u128, checked_add_u128, checked_div_u128, try_u64,
}
use programmable_solana.Wire.Bytes.{le_bytes, of_le_bytes}
use programmable_solana.Wire.Cursor.{put_bytes, put_u8, finish, read_u8, read_array, assert_cursor}
use programmable_solana.Wire.Probe.{
  encode_plan_binding, compute_plan_hash, encode_request, encode_evaluate_instruction,
  encode_receipt, require_length, require_version, decode_request, decode_evaluate_instruction,
  decode_receipt,
}
use programmable_solana.Core.Constants.{instructions_sysvar_id}
use programmable_solana.Core.Error.{◌>>=◌, ◌>>◌, require_core, ok->>=, ok->>}
use programmable_solana.Core.Runtime.{Context, World, reload}
use programmable_solana.Core.Math.{fee_ceil}
use programmable_solana.Core.Validation.{
  ensure_no_remaining_accounts, any_equal, ensure_distinct_roles, validate_market_domain,
  validate_fee_ledger, canonical_domain_vault, canonical_fee_vault, validate_classic_mint,
  validate_common_token_account, validate_protected_token_account, validate_credit_destination,
  require_raw_covers_accounted, exact_debit, exact_credit,
}
use programmable_solana.Core.Execute.{
  ExecuteEngineProbeV0, ExecuteEngineProbeV0Args, Executed, Quote, movement, movement, Consulted,
  plan_binding, engine_request, engine_instruction, read_receipt, input_transfer, fee_transfer,
  output_transfer, admit_canonical, admit_identities, admit_tokens, require_exact_deltas, quote,
  consult_engine, settle, handle_execute_engine_probe_v0,
}
use programmable_solana.Wire.Probe.Plan
use programmable_solana.Wire.Digest.{Collision}
use programmable_solana.Core.Math.{fee_ceil_least, fee_ceil_total}
use programmable_solana.Core.Validation.Roles.{NoRepeats, ensure_distinct_roles-NoRepeats}
use programmable_solana.Core.Validation.Identity.{
  IsBound, IsLedgerOf, validate_market_domain-IsBound, validate_fee_ledger-IsLedgerOf,
}
use programmable_solana.Core.Validation.Tokens.{
  IsProtected, validate_protected_token_account-IsProtected,
}
use programmable_solana.Core.Execute.{execute_roles}
use programmable_solana.Core.Execute.Quotes.{IsQuote, quote→IsQuote}
use programmable_solana.Core.Execute.Engine.{
  IsConsulted, consult_engine→IsConsulted, receipt_authorizes_one_plan,
}
use programmable_solana.Core.Execute.Terms.{IsSameSwap, swap_terms}
use programmable_solana.Wire.Layout.{FitAll}
use programmable_solana.Core.Execute.Fairness.{
  IsFairSwap, handle_execute_engine_probe_v0-IsFairSwap,
}
use mathlib.Core.Logic.{◌↔◌}
use programmable_solana.Core.Examples.{
  small_runtime, plain, writable, authority, executable_program, example_mint, token_account,
  market_account, domain_account, fee_ledger_account, vault_a, vault_b, fee_vault, user_a, user_b,
  example_world,
}

abbrev pub swap_accounts : ExecuteEngineProbeV0
swap_accounts = record {
  user = authority 61;
  market = market_account;
  domain = domain_account;
  fee_ledger = fee_ledger_account;
  mint_a = example_mint 21;
  mint_b = example_mint 22;
  user_source_a = token_account 71 user_a;
  user_destination_b = token_account 72 user_b;
  vault_a = token_account 2173 vault_a;
  vault_b = token_account 2174 vault_b;
  fee_vault = token_account 2632 fee_vault;
  engine_program = executable_program 31;
  engine_state = writable 32 31;
  instructions_sysvar = plain instructions_sysvar_id 6;
  token_program = executable_program 2;
}

abbrev pub swap_context : Context ExecuteEngineProbeV0
swap_context = record { accounts = swap_accounts; remaining_accounts = [] }

abbrev pub swap_args : ExecuteEngineProbeV0Args
swap_args = record {
  amount_in = 1_001;
  amount_out = 900;
  max_total_input_debit = 1_010;
  min_output_credit = 890;
  max_protocol_fee = 5;
  expires_at_slot = 60;
}

swap_quote : (q : Quote) × (quote small_runtime swap_accounts swap_args ≡ ok q)
unfolding quote ◌>>=◌ ◌>>◌ require_core ok_or fee_ceil checked_add_u64 checked_sub_u64
    checked_mul_u128 checked_add_u128 checked_div_u128 try_u64
swap_quote = (_, refl)

swap_consulted :
    (c : Consulted) × (consult_engine small_runtime swap_accounts swap_args
        swap_quote.0.protocol_fee example_world
      ≡ ok c)
unfolding consult_engine ◌>>=◌ ◌>>◌ require_core ok_or plan_binding engine_request
    engine_instruction read_receipt compute_plan_hash encode_plan_binding
    encode_evaluate_instruction encode_request encode_receipt put_bytes put_u8 finish le_bytes
    of_le_bytes read_u8 read_array assert_cursor require_length require_version decode_request
    decode_evaluate_instruction decode_receipt swap_quote
swap_consulted = (_, refl)

swap_settled :
    (s : ExecuteEngineProbeV0 × World) × (settle small_runtime swap_accounts
        (movement swap_args swap_quote.0)
        swap_consulted.0.world
      ≡ ok s)
unfolding settle ◌>>=◌ ◌>>◌ reload require_exact_deltas exact_debit exact_credit ok_or
    checked_sub_u64 input_transfer fee_transfer output_transfer swap_quote swap_consulted
swap_settled = (_, refl)

swap_identified : admit_identities small_runtime swap_context ≡ ok tt
unfolding admit_identities admit_canonical ◌>>=◌ ◌>>◌ require_core ok_or
    ensure_no_remaining_accounts any_equal ensure_distinct_roles validate_market_domain
    validate_fee_ledger canonical_domain_vault canonical_fee_vault le_bytes
swap_identified = refl

swap_funded : admit_tokens small_runtime swap_accounts ≡ ok tt
unfolding admit_tokens ◌>>◌ require_core validate_classic_mint validate_common_token_account
    validate_protected_token_account validate_credit_destination require_raw_covers_accounted
swap_funded = refl

swap_executed :
    (r : Executed) × (handle_execute_engine_probe_v0 small_runtime swap_context swap_args
        example_world
      ≡ ok r)
unfolding handle_execute_engine_probe_v0
swap_executed = (
  _,
  ok->> _ _ swap_identified
      ∙ ok->> _ _ swap_funded
      ∙ ok->>= _ _ swap_quote.1
      ∙ ok->>= _ _ swap_consulted.1
      ∙ ok->>= _ _ swap_settled.1,
)

swap_terms_fit : FitAll Plan.widths (swap_terms swap_accounts swap_args swap_quote.0.protocol_fee)
unfolding swap_quote
swap_terms_fit = ground arith

handle_execute_engine_probe_v0-IsFairSwap_example :
    IsFairSwap swap_args swap_executed.0.event.protocol_fee swap_accounts swap_executed.0.accounts
handle_execute_engine_probe_v0-IsFairSwap_example =
    handle_execute_engine_probe_v0-IsFairSwap small_runtime swap_context swap_args example_world
      swap_executed.0 swap_executed.1

consult_engine→IsConsulted_example :
    IsConsulted small_runtime swap_accounts swap_args swap_quote.0.protocol_fee example_world
      swap_consulted.0
consult_engine→IsConsulted_example =
    consult_engine→IsConsulted small_runtime swap_accounts swap_args swap_quote.0.protocol_fee
      example_world swap_consulted.0 swap_consulted.1

receipt_authorizes_one_plan_example :
    IsSameSwap swap_accounts swap_accounts swap_args swap_args swap_quote.0.protocol_fee
      swap_quote.0.protocol_fee
    ⊎ Collision small_runtime.hashv
receipt_authorizes_one_plan_example =
    receipt_authorizes_one_plan small_runtime swap_accounts swap_accounts swap_args swap_args
      swap_quote.0.protocol_fee swap_quote.0.protocol_fee example_world example_world
      swap_consulted.0 swap_consulted.0 swap_terms_fit swap_terms_fit swap_consulted.1
      swap_consulted.1 refl

quote→IsQuote_example : IsQuote small_runtime swap_accounts swap_args swap_quote.0
quote→IsQuote_example =
    quote→IsQuote small_runtime swap_accounts swap_args swap_quote.0 swap_quote.1

ensure_distinct_roles-NoRepeats_example :
    (ensure_distinct_roles (execute_roles swap_accounts) ≡ ok tt)
    ↔ NoRepeats (execute_roles swap_accounts)
ensure_distinct_roles-NoRepeats_example =
    ensure_distinct_roles-NoRepeats (execute_roles swap_accounts)

validate_market_domain-IsBound_example :
    (validate_market_domain small_runtime market_account.info.key market_account.content
        domain_account.info.key domain_account.content
      ≡ ok tt)
    ↔ IsBound small_runtime market_account.info.key market_account.content domain_account.info.key
        domain_account.content
validate_market_domain-IsBound_example =
    validate_market_domain-IsBound small_runtime market_account.info.key market_account.content
      domain_account.info.key domain_account.content

validate_fee_ledger-IsLedgerOf_example :
    (validate_fee_ledger small_runtime market_account.info.key market_account.content
        fee_ledger_account.info.key fee_ledger_account.content
      ≡ ok tt)
    ↔ IsLedgerOf small_runtime market_account.info.key market_account.content
        fee_ledger_account.info.key fee_ledger_account.content
validate_fee_ledger-IsLedgerOf_example =
    validate_fee_ledger-IsLedgerOf small_runtime market_account.info.key market_account.content
      fee_ledger_account.info.key fee_ledger_account.content

fee_ceil_least_example :
    (1_001 * 30 ≤ 4 * 10_000) × (4 * 10_000 < 1_001 * 30 + 10_000) × IsU64 4 × (0 < 1_001)
unfolding ◌>>=◌ ◌>>◌ require_core ok_or fee_ceil checked_mul_u128 checked_add_u128 checked_div_u128
    try_u64
fee_ceil_least_example = fee_ceil_least 1_001 30 4 refl

fee_ceil_total_example : (fee : ℕ) × (fee_ceil 1_001 30 ≡ ok fee) × (fee ≤ 1_001)
fee_ceil_total_example = fee_ceil_total 1_001 (omega arith) (omega arith)

validate_protected_token_account-IsProtected_example :
    (validate_protected_token_account vault_a 21 domain_account.info.key ≡ ok tt)
    ↔ IsProtected vault_a 21 domain_account.info.key
validate_protected_token_account-IsProtected_example =
    validate_protected_token_account-IsProtected vault_a 21 domain_account.info.key
