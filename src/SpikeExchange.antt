-- ===== src/SpikeExchange.antt =====
-- programs/core and test-programs/spike-engine together: which modes of the engine Core settles a
-- swap on.
mod Examples
use programmable_solana.Base.{
  ℕ, ◌≡◌, ◌≢◌, sym, ap, ◌∙◌, some, List, ◌∷◌, drop, All, ok, err, ok-injective, arith, map_err,
}
use mathlib.Core.Path.{subst}
use programmable_solana.Wire.Bytes.{IsByte, Fits}
use programmable_solana.Wire.Layout.{encoding, encoding-IsByte}
use programmable_solana.Wire.Digest.{cons_tail, le_bytes_front}
use programmable_solana.Wire.Probe.{
  EngineRequest, EngineReceipt, CodecError, probe_wire_version, encode_evaluate_instruction,
  decode_receipt,
}
use programmable_solana.Wire.Probe.Request
use programmable_solana.Wire.Probe.RoundTrip.{encode_request_lem, encode_evaluate_instruction_lem}
use programmable_solana.Wire.Probe.Canonical.{decode_request-canonical}
use programmable_solana.Core.Error.{Failure, core, invalid_engine_receipt}
use programmable_solana.Core.Runtime.{Runtime, AccountInfo, Instruction, Context, World}
use programmable_solana.Core.Execute.{
  ExecuteEngineProbeV0, ExecuteEngineProbeV0Args, Executed, read_receipt,
  handle_execute_engine_probe_v0,
}
use programmable_solana.Core.Execute.Safety.{handle_execute_engine_probe_v0→IsExecuted}
use programmable_solana.SpikeEngine.{Call, EngineState, mode_accept, evaluate}
use programmable_solana.SpikeEngine.Evaluates.{
  IsAnswerOf, honest, silent, flipping, cutting, evaluate→IsEvaluated,
}
use programmable_solana.SpikeEngine.Answers.{evaluate-malformed_receipt, evaluate-wrong_plan_hash}

-- The runtime runs the spike engine, in the state `before` and with the surroundings that `call`
-- gives, where the program `key` is called: the data that such a call leaves are those that the engine
-- returns on the request behind its discriminator.
pub record RunsEngine (rt : Runtime) (key : ℕ)
    (call : Instruction → List AccountInfo → World → Call) (before : EngineState) : Type 0 where
  pub runs :
      (instruction : Instruction) (infos : List AccountInfo) (w w' : World) (returned : List ℕ)
      → instruction.program_id ≡ key
      → rt.invoke instruction infos w ≡ ok w'
      → w'.return_data ≡ some (key, returned)
      → (after : EngineState) × (evaluate
            (call instruction infos w)
            (drop 8 instruction.payload)
            before
          ≡ ok (after, some returned))

-- The bytes of a request, and that they stand behind the discriminator of its instruction.
abbrev request_bytes : EngineRequest → List ℕ
request_bytes r = probe_wire_version ∷ encoding Request.widths (Request.row r)

request_bytes-IsByte : (r : EngineRequest) → All IsByte (request_bytes r)
request_bytes-IsByte r = (omega arith, encoding-IsByte Request.widths (Request.row r))

instruction_request :
    (r : EngineRequest) (payload : List ℕ)
    → encode_evaluate_instruction {E = Failure} r ≡ ok payload
    → request_bytes r ≡ drop 8 payload
instruction_request r payload h =
    ap (drop 8) (ok-injective (sym (encode_evaluate_instruction_lem {E = Failure} r) ∙ h))

-- Requests with the same bytes ask under the same digest.
same_digest :
    (sent received : EngineRequest)
    → Fits 32 sent.plan_hash
    → Request.IsValid received
    → request_bytes sent ≡ request_bytes received
    → sent.plan_hash ≡ received.plan_hash
same_digest sent received fits valid h =
    (le_bytes_front 32 sent.plan_hash received.plan_hash fits valid.0 (cons_tail h)).0

some_injective : {a b : List ℕ} → some a ≡ some b → a ≡ b
some_injective h = cc

read_refused :
    (bytes : List ℕ) (r : EngineReceipt)
    → decode_receipt bytes ≡ ok r
    → read_receipt bytes ≢ err (core invalid_engine_receipt)
unfolding read_receipt
read_refused bytes r d refused =
    absurd (cc (sym refused ∙ ap (map_err (λ _. core invalid_engine_receipt)) d))

module _ (call : Call) (wire_request : List ℕ) (before after : EngineState) (answered : List ℕ)
    (ran : evaluate call wire_request before ≡ ok (after, some answered)) where
  -- An answer that decodes to a receipt of the engine's new plan hash comes from the accepting mode.
  accepting_of_answer :
      (r : EngineReceipt)
      → decode_receipt answered ≡ ok r
      → r.plan_hash ≡ after.last_plan_hash
      → IsAnswerOf before.mode
          (evaluate→IsEvaluated call wire_request before after (some answered) ran).receipt
          (some answered)
      → before.mode ≡ mode_accept
  accepting_of_answer r d same (honest m e) = m
  accepting_of_answer r d same (silent m e) = absurd (cc e)
  accepting_of_answer r d same (flipping m e) =
      let (bytes, is, differs) =
        evaluate-wrong_plan_hash call wire_request before after (some answered) m ran in
      absurd (differs r (ap decode_receipt (sym (some_injective is)) ∙ d) same)
  accepting_of_answer r d same (cutting m e) =
      let (bytes, is, refused) =
        evaluate-malformed_receipt call wire_request before after (some answered) m ran in
      absurd (read_refused bytes r (ap decode_receipt (sym (some_injective is)) ∙ d) refused)

module _ (rt : Runtime) (call : Instruction → List AccountInfo → World → Call)
    (before : EngineState) where
  -- Where the runtime runs the spike engine when Core calls the engine's program, Core settles
  -- a swap only if the engine is in its accepting mode, so that no hostile mode gets a swap
  -- through, provided the plan's digest is of 32 bytes.
  pub settled_swap_accepting :
      (ctx : Context ExecuteEngineProbeV0) (args : ExecuteEngineProbeV0Args) (w : World)
      (r : Executed)
      → RunsEngine rt ctx.accounts.engine_program.key call before
      → Fits 32 r.event.plan_digest
      → handle_execute_engine_probe_v0 rt ctx args w ≡ ok r
      → before.mode ≡ mode_accept
  settled_swap_accepting ctx args w r engine fits h =
      let x = handle_execute_engine_probe_v0→IsExecuted rt ctx args w r h in
      let c = x.consulted in
      let wire =
        instruction_request c.request c.payload c.encoded
        ∙ ap (drop 8) (sym c.instructed.carries) in
      let (after, ran) =
        engine.runs c.instruction _ w x.c.world c.receipt_data c.instructed.to_engine c.called
          c.returned in
      let e = evaluate→IsEvaluated _ _ before after (some c.receipt_data) ran in
      let (valid, whole) =
        decode_request-canonical (drop 8 c.instruction.payload) e.request
          (subst (All IsByte) wire (request_bytes-IsByte c.request)) e.decoded in
      let received = ok-injective (sym (encode_request_lem {E = CodecError} e.request) ∙ whole) in
      let digest = x.event_digest ∙ sym c.requested.digest_named in
      let same =
        same_digest c.request e.request (subst (Fits 32) digest fits) valid (wire ∙ sym received) in
      accepting_of_answer _ _ before after c.receipt_data ran x.c.receipt c.decoded
        (c.authenticated
          ∙ sym c.requested.digest_named
          ∙ same
          ∙ sym (ap (λ (s : EngineState). s.last_plan_hash) e.stepped))
        e.says
