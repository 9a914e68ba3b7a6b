-- ===== src/GeneratedCore/Program.antt =====
-- The constants of the generated-settlement core:
-- experiments/engine-generated-settlement/programs/generated-settlement-core/src/constants.rs and
-- lib.rs. Its state, validation, initialization and deposit are those of programs/core.
use programmable_solana.Base.{ℕ, List, [], ◌∷◌, ◌++◌}
use programmable_solana.Core.Program.{Program}

abbrev pub generated_core_id : ℕ
generated_core_id = 0xc1122cda9d1c1d6098ed015d68880b272d3a6fc70af7136f7c2092791a3b98c5

abbrev pub settlement_hash_domain_v0 : List ℕ
settlement_hash_domain_v0 =
    (b'p' ∷ b'r' ∷ b'o' ∷ b'g' ∷ b'r' ∷ b'a' ∷ b'm' ∷ b'm' ∷ b'a' ∷ b'b' ∷ b'l' ∷ b'e' ∷ [])
    ++ ((b':' ∷ b'g' ∷ b'e' ∷ b'n' ∷ b'e' ∷ b'r' ∷ b'a' ∷ b't' ∷ b'e' ∷ b'd' ∷ b'-' ∷ b's' ∷ [])
        ++ ((b'e' ∷ b't' ∷ b't' ∷ b'l' ∷ b'e' ∷ b'm' ∷ b'e' ∷ b'n' ∷ b't' ∷ b':' ∷ b's' ∷ b'e' ∷ [])
            ++ (b't' ∷ b't' ∷ b'l' ∷ b'e' ∷ b'm' ∷ b'e' ∷ b'n' ∷ b't' ∷ b':' ∷ b'v' ∷ b'0' ∷ [])))

abbrev pub generated_core : Program
generated_core = record {
  id = generated_core_id;
  market_seed =
      (b'g' ∷ b'e' ∷ b'n' ∷ b'e' ∷ b'r' ∷ b'a' ∷ b't' ∷ b'e' ∷ b'd' ∷ b'-' ∷ b'm' ∷ b'a' ∷ [])
      ++ (b'r' ∷ b'k' ∷ b'e' ∷ b't' ∷ b'-' ∷ b'v' ∷ b'0' ∷ []);
  domain_seed =
      (b'g' ∷ b'e' ∷ b'n' ∷ b'e' ∷ b'r' ∷ b'a' ∷ b't' ∷ b'e' ∷ b'd' ∷ b'-' ∷ b'd' ∷ b'o' ∷ [])
      ++ (b'm' ∷ b'a' ∷ b'i' ∷ b'n' ∷ b'-' ∷ b'v' ∷ b'0' ∷ []);
  vault_seed =
      (b'g' ∷ b'e' ∷ b'n' ∷ b'e' ∷ b'r' ∷ b'a' ∷ b't' ∷ b'e' ∷ b'd' ∷ b'-' ∷ b'v' ∷ b'a' ∷ [])
      ++ (b'u' ∷ b'l' ∷ b't' ∷ b'-' ∷ b'v' ∷ b'0' ∷ []);
  fee_ledger_seed =
      (b'g' ∷ b'e' ∷ b'n' ∷ b'e' ∷ b'r' ∷ b'a' ∷ b't' ∷ b'e' ∷ b'd' ∷ b'-' ∷ b'f' ∷ b'e' ∷ [])
      ++ (b'e' ∷ b'-' ∷ b'l' ∷ b'e' ∷ b'd' ∷ b'g' ∷ b'e' ∷ b'r' ∷ b'-' ∷ b'v' ∷ b'0' ∷ []);
  fee_vault_seed =
      (b'g' ∷ b'e' ∷ b'n' ∷ b'e' ∷ b'r' ∷ b'a' ∷ b't' ∷ b'e' ∷ b'd' ∷ b'-' ∷ b'f' ∷ b'e' ∷ [])
      ++ (b'e' ∷ b'-' ∷ b'v' ∷ b'a' ∷ b'u' ∷ b'l' ∷ b't' ∷ b'-' ∷ b'v' ∷ b'0' ∷ []);
  own_role = generated_core_id ∷ [];
}
