-- ===== src/GeneratedCore.antt =====
-- experiments/engine-generated-settlement/programs/generated-settlement-core: a swap whose output
-- the market's engine chooses. The rest of that program is programs/core's at other constants; the
-- handler of execute_engine_generated_probe_v0.rs is cut at its phases.
pub mod Program
pub mod Instances
mod Accounts
pub mod Opaque
pub mod Capabilities
pub mod Availability
pub mod Terms
pub mod Safety
pub mod Fairness
mod Examples
mod Request
mod Flow
pub use Accounts.{
  ExecuteEngineGeneratedProbeV0Args, ExecuteEngineGeneratedProbeV0, AcceptedEnginePlan,
  EngineGeneratedProbeExecutedV0, Generated, Limits, Prepared, fixed_envelope_keys, with_output,
  plan_quote, plan_movement,
}
pub use Request.{wire, try_u16, try_u8}
unfoldable pub use Request.{
  capability_descriptors, request_binding, opaque_metas, engine_instruction, opaque_infos, prepare,
}
pub use Flow.{engine_unsigned, envelope_unsigned}
unfoldable pub use Flow.{
  admit_envelope, limit, consult, settlement_hash, accept, settle_engine_generated_probe,
}
use programmable_solana.Base.{Result}
use programmable_solana.Core.Error.{Failure, ◌>>=◌, ◌>>◌}
use programmable_solana.Core.Runtime.{Runtime, Context, World}
use programmable_solana.Core.Execute.{check_execute_engine_probe_v0}

module _ (rt : Runtime) where
  unfoldable pub handle_execute_engine_generated_probe_v0 :
      Context ExecuteEngineGeneratedProbeV0
      → ExecuteEngineGeneratedProbeV0Args
      → World
      → Result Failure Generated
  handle_execute_engine_generated_probe_v0 ctx args w = do
    admit_envelope rt ctx.accounts args
    limits ← limit rt ctx.accounts args
    prepared ← prepare rt ctx args limits
    (receipt, w) ← consult rt ctx.accounts args prepared w
    plan ← accept rt ctx.accounts limits prepared receipt
    settle_engine_generated_probe rt ctx.accounts args plan w

  -- `programmable_generated_settlement_core::execute_engine_generated_probe`
  unfoldable pub execute_engine_generated_probe :
      Context ExecuteEngineGeneratedProbeV0
      → ExecuteEngineGeneratedProbeV0Args
      → World
      → Result Failure Generated
  execute_engine_generated_probe ctx args w = do
    check_execute_engine_probe_v0 rt ctx.accounts
    handle_execute_engine_generated_probe_v0 ctx args w
