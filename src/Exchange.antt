-- ===== src/Exchange.antt =====
-- The generated-settlement core and the constant-product engine together: a swap that
-- generated-settlement-core settles on an answer of generated-plan-engine.
mod Trade
mod Examples
use programmable_solana.Base.{
  ℕ, ◌+◌, ◌-◌, ◌*◌, ◌≤◌, ◌≡◌, sym, ap, ◌∙◌, some, List, drop, All, ok, ok-injective, IsU64, arith,
}
use mathlib.Core.Path.{subst}
use programmable_solana.Core.State.{DomainV0}
use programmable_solana.Core.Runtime.{Runtime, AccountInfo, Instruction, Context, World}
use programmable_solana.GeneratedCore.{
  ExecuteEngineGeneratedProbeV0, ExecuteEngineGeneratedProbeV0Args, Generated,
  handle_execute_engine_generated_probe_v0,
}
use programmable_solana.GeneratedCore.Fairness.{
  handle_execute_engine_generated_probe_v0→IsGenerated,
  handle_execute_engine_generated_probe_v0-IsFairSwap,
}
use programmable_solana.GeneratedEngine.{evaluate}
use programmable_solana.GeneratedEngine.State.{Call, EngineState, mode_accept}
use programmable_solana.GeneratedEngine.Answers.{IsHonestAnswer, evaluate-accept_priced}
use programmable_solana.Wire.Bytes.{IsByte}
use programmable_solana.Wire.Generated.{EngineRequest, EngineReceipt, decode_receipt}
use programmable_solana.Wire.Generated.Canonical.{decode_request-canonical}
use programmable_solana.Exchange.Trade.{
  IsSameTrade, new_engine_request→IsBuilt, instruction_request, instruction_bytes, same_trade,
}

-- The runtime runs the generated-plan engine, in the state `before` and with the surroundings that
-- `call` gives, where the program `key` is called: the data that such a call leaves are those that
-- the engine returns on the request behind its discriminator.
pub record RunsEngine (rt : Runtime) (key : ℕ)
    (call : Instruction → List AccountInfo → World → Call) (before : EngineState) : Type 0 where
  pub runs :
      (instruction : Instruction) (infos : List AccountInfo) (w w' : World) (returned : List ℕ)
      → instruction.program_id ≡ key
      → rt.invoke instruction infos w ≡ ok w'
      → w'.return_data ≡ some (key, returned)
      → (after : EngineState) × (evaluate
            (call instruction infos w)
            (drop 8 instruction.payload)
            before
          ≡ ok (after, some returned))

-- The product of the reserves that a domain accounts for.
abbrev pub reserves_product : DomainV0 → ℕ
reserves_product domain = domain.accounted_a * domain.accounted_b

-- What the engine was asked and answered in a settled exchange: the quote's trade is the domain's.
answer_keeps_product :
    (sent received : EngineRequest) (fee : ℕ) (answered : List ℕ) (honest receipt : EngineReceipt)
    → IsSameTrade sent received
    → IsHonestAnswer received fee answered honest
    → decode_receipt answered ≡ ok receipt
    → sent.accounted_input_before * sent.accounted_output_before
      ≤ (sent.accounted_input_before + sent.amount_in)
        * (sent.accounted_output_before - receipt.amount_out)
answer_keeps_product sent received fee answered honest receipt same h d =
    let one : honest ≡ receipt = ok-injective (sym h.decoded ∙ d) in
    rw (same.amount, same.input, same.output, ap (λ (r : EngineReceipt). r.amount_out) (sym one))
      h.product_kept

module _ (rt : Runtime) (call : Instruction → List AccountInfo → World → Call)
    (before : EngineState) where
  -- A swap that the generated-settlement core settles while the runtime runs the generated-plan
  -- engine, in its accepting mode, where Core calls the engine's program does not lower the
  -- product of the domain's two accounted reserves, where the payload consists of bytes and the
  -- accounted output fits 64 bits.
  pub exchange_keeps_product :
      (ctx : Context ExecuteEngineGeneratedProbeV0) (args : ExecuteEngineGeneratedProbeV0Args)
      (w : World) (g : Generated)
      → RunsEngine rt ctx.accounts.engine_program.key call before
      → before.mode ≡ mode_accept
      → All IsByte args.opaque_payload
      → IsU64 ctx.accounts.domain.content.accounted_b
      → handle_execute_engine_generated_probe_v0 rt ctx args w ≡ ok g
      → reserves_product ctx.accounts.domain.content ≤ reserves_product g.accounts.domain.content
  exchange_keeps_product ctx args w g engine accept bytes fits h =
      let x = handle_execute_engine_generated_probe_v0→IsGenerated rt ctx args w g h in
      let swap = handle_execute_engine_generated_probe_v0-IsFairSwap rt ctx args w g h in
      let sent = x.prepared.request in
      let built =
        new_engine_request→IsBuilt _ _ _ _ _ _ _ _ _ args.opaque_payload sent bytes
          x.prepared.built in
      let wire =
        instruction_request sent x.p.instruction.payload built.payload_long x.prepared.encoded in
      let wire_bytes = subst (All IsByte) wire (instruction_bytes sent built.payload_bytes) in
      let (after, ran) =
        engine.runs x.p.instruction x.p.infos w x.answered_world x.answered.receipt_data
          x.prepared.to_engine x.answered.called x.answered.returned in
      let (received, honest, decoded, answer) =
        evaluate-accept_priced _ _ before after x.answered.receipt_data wire_bytes accept ran in
      let (valid, limits, whole) =
        decode_request-canonical (drop 8 x.p.instruction.payload) received wire_bytes decoded in
      let same =
        same_trade sent received
          (omega (arith, built.amount_kept, x.limited.post_a, x.limited.post_a_fits))
          (omega (arith, built.input_kept, x.limited.post_a, x.limited.post_a_fits))
          (omega (arith, built.output_kept, fits)) valid (wire ∙ sym whole) in
      let kept =
        answer_keeps_product sent received before.lp_fee_bps x.answered.receipt_data honest x.r same
          answer x.answered.decoded in
      let output : g.event.amount_out ≡ x.r.amount_out = x.event_output ∙ x.accepted.output in
      rw
        (
          swap.domain_swapped,
          output,
          sym built.amount_kept,
          sym built.input_kept,
          sym built.output_kept,
        )
        kept
