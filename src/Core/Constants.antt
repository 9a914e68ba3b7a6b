-- ===== src/Core/Constants.antt =====
-- programs/core/src/constants.rs, and the program id that lib.rs declares.
use programmable_solana.Base.{ℕ, List, [], ◌∷◌}

-- `declare_id!` of programs/core/src/lib.rs.
abbrev pub core_id : ℕ
core_id = 0x964d0482bbd9e65072d358e11f8e2795a4c4abe35e2d2d8e60569ae10cd238ad

abbrev pub experiment_version_v0 : ℕ
experiment_version_v0 = 0

abbrev pub market_seed_v0 : List ℕ
market_seed_v0 = b'm' ∷ b'a' ∷ b'r' ∷ b'k' ∷ b'e' ∷ b't' ∷ b'-' ∷ b'v' ∷ b'0' ∷ []

abbrev pub domain_seed_v0 : List ℕ
domain_seed_v0 = b'd' ∷ b'o' ∷ b'm' ∷ b'a' ∷ b'i' ∷ b'n' ∷ b'-' ∷ b'v' ∷ b'0' ∷ []

abbrev pub vault_seed_v0 : List ℕ
vault_seed_v0 = b'v' ∷ b'a' ∷ b'u' ∷ b'l' ∷ b't' ∷ b'-' ∷ b'v' ∷ b'0' ∷ []

abbrev pub fee_ledger_seed_v0 : List ℕ
fee_ledger_seed_v0 =
    b'f' ∷ b'e' ∷ b'e' ∷ b'-' ∷ b'l' ∷ b'e' ∷ b'd' ∷ b'g' ∷ b'e' ∷ b'r' ∷ b'-' ∷ b'v' ∷ b'0' ∷ []

abbrev pub fee_vault_seed_v0 : List ℕ
fee_vault_seed_v0 =
    b'f' ∷ b'e' ∷ b'e' ∷ b'-' ∷ b'v' ∷ b'a' ∷ b'u' ∷ b'l' ∷ b't' ∷ b'-' ∷ b'v' ∷ b'0' ∷ []

abbrev pub asset_a_index_v0 : ℕ
asset_a_index_v0 = 0

abbrev pub asset_b_index_v0 : ℕ
asset_b_index_v0 = 1

abbrev pub asset_a_seed_v0 : List ℕ
asset_a_seed_v0 = asset_a_index_v0 ∷ []

abbrev pub asset_b_seed_v0 : List ℕ
asset_b_seed_v0 = asset_b_index_v0 ∷ []

abbrev pub protocol_fee_bps_v0 : ℕ
protocol_fee_bps_v0 = 30

abbrev pub fee_policy_revision_v0 : ℕ
fee_policy_revision_v0 = 0

abbrev pub basis_points_denominator : ℕ
basis_points_denominator = 10_000

abbrev pub instructions_sysvar_id : ℕ
instructions_sysvar_id = 0x85fcbbadba57556218fc624c1c0c2fd5504d4da3566d17b1817d5a706
