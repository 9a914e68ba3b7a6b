-- ===== src/CapabilityProbe/Examples.antt =====
-- A call of the capability probe.
use programmable_solana.Base.{◌≡◌, refl, true, false, [], ok, err, ok_or, checked_add_u64}
use programmable_solana.Base.Steps.{◌>>=◌, ◌>>◌}
use programmable_solana.Core.Runtime.{AccountInfo}
use programmable_solana.CapabilityProbe.{
  HelperState, encode_probe_return_data, increment, probe, arithmetic_overflow,
}

abbrev helper_authority : AccountInfo
helper_authority = record {
  key = 51;
  owner = 3;
  is_signer = true;
  is_writable = false;
  executable = false;
}

abbrev helper_state : HelperState
helper_state = record { authority = 51; calls = 4; value = 40 }

increments :
    increment [] helper_authority 2 helper_state
    ≡ ok (record helper_state { calls = 5; value = 42 }, encode_probe_return_data 5 42)
unfolding increment ◌>>=◌ ◌>>◌ ok_or checked_add_u64
increments = refl

overflows :
    increment [] helper_authority 0xffff_ffff_ffff_ffff helper_state
    ≡ err (probe arithmetic_overflow)
unfolding increment ◌>>=◌ ◌>>◌ ok_or checked_add_u64
overflows = refl
