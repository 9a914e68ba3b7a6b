-- ===== src/Wire/Generated/Rows/Binding.antt =====
-- The values of `RequestBinding` as rows of fields: widths, values, and back.
use programmable_solana.Base.{ℕ, List, [], ◌∷◌, get_or}
use programmable_solana.Wire.Layout.{Widths, FitAll}
use programmable_solana.Wire.Generated.{RequestBinding}

abbrev pub widths : Widths
widths =
    32 ∷ 32 ∷ 32 ∷ 32 ∷ 32 ∷ 32 ∷ 32 ∷ 32 ∷ 32 ∷ 32 ∷ 32 ∷ 32 ∷ 32 ∷ 32 ∷ 32 ∷ 8 ∷ 8 ∷ 8 ∷ 8 ∷ 8 ∷ 8
    ∷ 8 ∷ 8 ∷ 8 ∷ 8 ∷ 8 ∷ 32 ∷ 32 ∷ []

abbrev pub row : RequestBinding → List ℕ
row r =
    r.core_program ∷ r.market ∷ r.domain ∷ r.engine_program ∷ r.engine_state ∷ r.user_authority
    ∷ r.user_input ∷ r.user_output ∷ r.mint_in ∷ r.mint_out ∷ r.domain_input_vault
    ∷ r.domain_output_vault ∷ r.protocol_fee_vault ∷ r.fee_ledger ∷ r.token_program
    ∷ r.engine_revision ∷ r.fee_policy_revision ∷ r.amount_in ∷ r.protocol_fee
    ∷ r.max_total_input_debit ∷ r.min_output_credit ∷ r.max_protocol_fee ∷ r.accounted_input_before
    ∷ r.accounted_output_before ∷ r.accounted_fee_before ∷ r.expires_at_slot ∷ r.capability_hash
    ∷ r.payload_hash ∷ []

abbrev pub of_row : List ℕ → RequestBinding
of_row vs = record {
  core_program = get_or vs 0 0;
  market = get_or vs 1 0;
  domain = get_or vs 2 0;
  engine_program = get_or vs 3 0;
  engine_state = get_or vs 4 0;
  user_authority = get_or vs 5 0;
  user_input = get_or vs 6 0;
  user_output = get_or vs 7 0;
  mint_in = get_or vs 8 0;
  mint_out = get_or vs 9 0;
  domain_input_vault = get_or vs 10 0;
  domain_output_vault = get_or vs 11 0;
  protocol_fee_vault = get_or vs 12 0;
  fee_ledger = get_or vs 13 0;
  token_program = get_or vs 14 0;
  engine_revision = get_or vs 15 0;
  fee_policy_revision = get_or vs 16 0;
  amount_in = get_or vs 17 0;
  protocol_fee = get_or vs 18 0;
  max_total_input_debit = get_or vs 19 0;
  min_output_credit = get_or vs 20 0;
  max_protocol_fee = get_or vs 21 0;
  accounted_input_before = get_or vs 22 0;
  accounted_output_before = get_or vs 23 0;
  accounted_fee_before = get_or vs 24 0;
  expires_at_slot = get_or vs 25 0;
  capability_hash = get_or vs 26 0;
  payload_hash = get_or vs 27 0;
}

abbrev pub IsValid : RequestBinding → Type 0
IsValid r = FitAll widths (row r)
