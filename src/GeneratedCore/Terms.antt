-- ===== src/GeneratedCore/Terms.antt =====
-- What the request binding of a generated settlement says of the call, term by term, and the metas
-- of the opaque accounts.
use programmable_solana.Base.{ℕ, ◌≡◌, refl, false, List, [], ◌∷◌}
use programmable_solana.Wire.Opaque.{CapabilityDescriptor}
use programmable_solana.Wire.Generated.{RequestBinding}
use programmable_solana.Core.Runtime.{Runtime, AccountMeta}
use programmable_solana.GeneratedCore.{
  ExecuteEngineGeneratedProbeV0, ExecuteEngineGeneratedProbeV0Args, request_binding, opaque_metas,
}
use programmable_solana.GeneratedCore.Capabilities.{Each}

-- The binding names the program, the accounts, both revisions, the input, the fee, the user's limits,
-- the accounted balances, and the two digests.
pub record IsBindingOf (rt : Runtime) (accounts : ExecuteEngineGeneratedProbeV0)
    (args : ExecuteEngineGeneratedProbeV0Args) (fee capability_hash payload_hash : ℕ)
    (binding : RequestBinding) : Type 0 where
  pub core_program_named : binding.core_program ≡ rt.program.id
  pub market_named : binding.market ≡ accounts.market.info.key
  pub domain_named : binding.domain ≡ accounts.domain.info.key
  pub engine_program_named : binding.engine_program ≡ accounts.engine_program.key
  pub engine_state_named : binding.engine_state ≡ accounts.engine_state.key
  pub user_authority_named : binding.user_authority ≡ accounts.user.key
  pub user_input_named : binding.user_input ≡ accounts.user_source_a.info.key
  pub user_output_named : binding.user_output ≡ accounts.user_destination_b.info.key
  pub mint_in_named : binding.mint_in ≡ accounts.mint_a.info.key
  pub mint_out_named : binding.mint_out ≡ accounts.mint_b.info.key
  pub domain_input_vault_named : binding.domain_input_vault ≡ accounts.vault_a.info.key
  pub domain_output_vault_named : binding.domain_output_vault ≡ accounts.vault_b.info.key
  pub protocol_fee_vault_named : binding.protocol_fee_vault ≡ accounts.fee_vault.info.key
  pub fee_ledger_named : binding.fee_ledger ≡ accounts.fee_ledger.info.key
  pub token_program_named : binding.token_program ≡ accounts.token_program.key
  pub engine_revision_named : binding.engine_revision ≡ accounts.market.content.engine_revision
  pub fee_policy_revision_named :
      binding.fee_policy_revision ≡ accounts.market.content.fee_policy_revision
  pub amount_in_named : binding.amount_in ≡ args.amount_in
  pub protocol_fee_named : binding.protocol_fee ≡ fee
  pub max_total_input_debit_named : binding.max_total_input_debit ≡ args.max_total_input_debit
  pub min_output_credit_named : binding.min_output_credit ≡ args.min_output_credit
  pub max_protocol_fee_named : binding.max_protocol_fee ≡ args.max_protocol_fee
  pub accounted_input_before_named :
      binding.accounted_input_before ≡ accounts.domain.content.accounted_a
  pub accounted_output_before_named :
      binding.accounted_output_before ≡ accounts.domain.content.accounted_b
  pub accounted_fee_before_named :
      binding.accounted_fee_before ≡ accounts.fee_ledger.content.accounted_fee_a
  pub expires_at_slot_named : binding.expires_at_slot ≡ args.expires_at_slot
  pub capability_hash_named : binding.capability_hash ≡ capability_hash
  pub payload_hash_named : binding.payload_hash ≡ payload_hash

-- A meta passes a capability on with its write privilege and without a signature.
pub record IsMetaOf (d : CapabilityDescriptor) (meta : AccountMeta) : Type 0 where
  pub key_passed : meta.pubkey ≡ d.key
  pub signs_nothing : meta.is_signer ≡ false
  pub writes_as_described : meta.is_writable ≡ d.is_writable

pub request_binding-IsBindingOf :
    (rt : Runtime) (accounts : ExecuteEngineGeneratedProbeV0)
    (args : ExecuteEngineGeneratedProbeV0Args) (fee capability_hash payload_hash : ℕ)
    → IsBindingOf rt accounts args fee capability_hash payload_hash
        (request_binding rt accounts args fee capability_hash payload_hash)
unfolding request_binding
request_binding-IsBindingOf rt accounts args fee capability_hash payload_hash = record {
  core_program_named = refl;
  market_named = refl;
  domain_named = refl;
  engine_program_named = refl;
  engine_state_named = refl;
  user_authority_named = refl;
  user_input_named = refl;
  user_output_named = refl;
  mint_in_named = refl;
  mint_out_named = refl;
  domain_input_vault_named = refl;
  domain_output_vault_named = refl;
  protocol_fee_vault_named = refl;
  fee_ledger_named = refl;
  token_program_named = refl;
  engine_revision_named = refl;
  fee_policy_revision_named = refl;
  amount_in_named = refl;
  protocol_fee_named = refl;
  max_total_input_debit_named = refl;
  min_output_credit_named = refl;
  max_protocol_fee_named = refl;
  accounted_input_before_named = refl;
  accounted_output_before_named = refl;
  accounted_fee_before_named = refl;
  expires_at_slot_named = refl;
  capability_hash_named = refl;
  payload_hash_named = refl;
}

pub opaque_metas-IsMetaOf : (ds : List CapabilityDescriptor) → Each IsMetaOf ds (opaque_metas ds)
unfolding opaque_metas
opaque_metas-IsMetaOf [] = tt
opaque_metas-IsMetaOf (d ∷ ds) = (
  record { key_passed = refl; signs_nothing = refl; writes_as_described = refl },
  opaque_metas-IsMetaOf ds,
)
