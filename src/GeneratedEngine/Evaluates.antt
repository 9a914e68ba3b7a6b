-- ===== src/GeneratedEngine/Evaluates.antt =====
-- What a successful call of the generated-plan engine's `evaluate` has checked and done.
use programmable_solana.Base.{
  ℕ, ◌+◌, ◌≤◌, ◌≡◌, ◌≢◌, ap, ◌∙◌, sym, true, false, Option, some, List, ◌∷◌, length, ok, err, Bool,
  map_err-eq-ok, IsU64, ◌==◌, ==_eq, ==_of_eq, Bool-cases, inl, inr, leb→le, require-eq-ok,
  ok_or-eq-ok, ok-injective, checked_add_u64-eq-some,
}
use mathlib.Core.Path.{subst}
use programmable_solana.Base.Steps.{◌>>◌, >>-eq-ok, >>=-eq-ok}
use programmable_solana.Wire.Generated.{
  EngineRequest, decode_request, encode_receipt, generated_capability_hash,
  disposable_core_program_id, disposable_engine_program_id,
}
use programmable_solana.Core.Runtime.{Instruction}
use programmable_solana.Cpmm.{CpmmQuote, quote_exact_in}
use programmable_solana.GeneratedEngine.State.{
  Call, EngineState, EngineFailure, EngineError, engine, require_engine,
  mode_hostile_readonly_escalation, hostile_cpi_unexpectedly_succeeded,
}
use programmable_solana.GeneratedEngine.{
  require_direct_core_cpi, observed_capabilities, chosen_output, answer, recorded, require_request,
  respond, respond, conclude, evaluate, attempt_readonly_to_writable_self_cpi,
}

-- A call from the Core program, whose instruction is the one on top of the transaction.
pub record IsDirectCoreCall (call : Call) : Type 0 where
  pub index : ℕ
  pub top : Instruction
  pub height : call.stack_height ≡ 2
  pub current : call.current_index ≡ some index
  pub loaded : call.instruction_at index ≡ some top
  pub from_core : top.program_id ≡ disposable_core_program_id

-- A request for this engine's market and revision, whose digest of the capabilities is that of the
-- accounts and privileges that the call has.
pub record IsRequestFor (call : Call) (request : EngineRequest) (state : EngineState) : Type 0 where
  pub few : length call.remaining_accounts ≤ 8
  pub counted : length call.remaining_accounts ≡ request.opaque_account_count
  pub market_named : state.market ≡ request.market
  pub revision_named : state.revision ≡ request.engine_revision
  pub capabilities_observed :
      generated_capability_hash call.hashv disposable_engine_program_id (
        observed_capabilities
          (call.engine_state ∷ call.instructions_sysvar ∷ call.remaining_accounts))
      ≡ ok request.capability_hash

pub record IsEvaluated (call : Call) (wire_request : List ℕ) (before after : EngineState)
    (return_data : Option (List ℕ)) : Type 0 where
  pub direct : IsDirectCoreCall call
  pub request : EngineRequest
  pub decoded : decode_request wire_request ≡ ok request
  pub requested : IsRequestFor call request before
  pub quote : CpmmQuote
  pub quoted :
      quote_exact_in request.accounted_input_before request.accounted_output_before
        request.amount_in before.lp_fee_bps
      ≡ ok quote
  pub sequence_fits : IsU64 (before.sequence + 1)
  pub not_hostile : before.mode ≢ mode_hostile_readonly_escalation
  pub stepped :
      after
      ≡ recorded before
          (before.sequence + 1)
          request.request_hash
          (chosen_output before.mode quote.amount_out)
  pub receipt : List ℕ
  pub encoded :
      encode_receipt {E = EngineFailure} (record {
        request_hash = request.request_hash;
        amount_out = chosen_output before.mode quote.amount_out;
        state_sequence = before.sequence + 1;
      })
      ≡ ok receipt
  pub answered : answer before.mode receipt ≡ ok return_data

require_engine-eq : (a b : ℕ) (e : EngineError) → require_engine (a == b) e ≡ ok tt → a ≡ b
unfolding require_engine
require_engine-eq a b e h = ==_eq a b (require-eq-ok _ _ h)

require_engine-holds : (test : Bool) (e : EngineError) → require_engine test e ≡ ok tt → test ≡ true
unfolding require_engine
require_engine-holds test e h = require-eq-ok _ _ h

require_direct_core_cpi→IsDirectCoreCall :
    (call : Call) → require_direct_core_cpi call ≡ ok tt → IsDirectCoreCall call
unfolding require_direct_core_cpi
require_direct_core_cpi→IsDirectCoreCall call h =
    let (height, h) = >>-eq-ok _ _ h in
    let (index, current, h) = >>=-eq-ok _ _ h in
    let (top, loaded, h) = >>=-eq-ok _ _ h in
    let (caller, h) = >>-eq-ok _ _ h in
    record {
      index = index;
      top = top;
      height = require_engine-eq _ _ _ height;
      current = ok_or-eq-ok _ _ current;
      loaded = ok_or-eq-ok _ _ loaded;
      from_core = require_engine-eq _ _ _ caller;
    }

require_request→IsRequestFor :
    (call : Call) (request : EngineRequest) (state : EngineState)
    → require_request call request state ≡ ok tt
    → IsRequestFor call request state
unfolding require_request
require_request→IsRequestFor call request state h =
    let (few, h) = >>-eq-ok _ _ h in
    let (count, h) = >>-eq-ok _ _ h in
    let (market, h) = >>-eq-ok _ _ h in
    let (revision, h) = >>-eq-ok _ _ h in
    let (observed, hashed, same) = >>=-eq-ok _ _ h in
    record {
      few = leb→le _ _ (require_engine-holds _ _ few);
      counted = require_engine-eq _ _ _ count;
      market_named = require_engine-eq _ _ _ market;
      revision_named = require_engine-eq _ _ _ revision;
      capabilities_observed = map_err-eq-ok _ _ hashed ∙ ap ok (require_engine-eq _ _ _ same);
    }

ne_of_false : (a b : ℕ) → (a == b) ≡ false → a ≢ b
ne_of_false a b h e = absurd (both _ h (==_of_eq a b e))
  where
    both : (t : Bool) → t ≡ false → t ≡ true → ⊥
    both t f g = cc

-- The hostile mode fails whatever the runtime answers.
attempt_fails :
    (call : Call) {A : Type 0} {a : A}
    → (call.exit
        >> (attempt_readonly_to_writable_self_cpi call
            >> err (engine hostile_cpi_unexpectedly_succeeded)))
      ≢ ok a
attempt_fails call h =
    let (written, h) = >>-eq-ok _ _ h in let (passed, failed) = >>-eq-ok _ _ h in absurd (cc failed)

module _ (call : Call) (request : EngineRequest) (amount_out : ℕ) (state after : EngineState)
    (return_data : Option (List ℕ)) where
  pub record IsConcluded : Type 0 where
    pub fits : IsU64 (state.sequence + 1)
    pub mode_plain : state.mode ≢ mode_hostile_readonly_escalation
    pub stepped : after ≡ recorded state (state.sequence + 1) request.request_hash amount_out
    pub receipt : List ℕ
    pub encoded :
        encode_receipt {E = EngineFailure} (record {
          request_hash = request.request_hash;
          amount_out = amount_out;
          state_sequence = state.sequence + 1;
        })
        ≡ ok receipt
    pub answered : answer state.mode receipt ≡ ok return_data

  -- The steps of the other modes.
  concluded_of_chain :
      (sequence : ℕ)
      → sequence ≡ state.sequence + 1
      → IsU64 (state.sequence + 1)
      → state.mode ≢ mode_hostile_readonly_escalation
      → respond request amount_out sequence state ≡ ok (after, return_data)
      → IsConcluded
  unfolding respond
  concluded_of_chain sequence count fits plain h =
      let (receipt, encoded, h) = >>=-eq-ok _ _ h in
      let (answered_with, answered, h) = >>=-eq-ok _ _ h in
      let result = ok-injective h in
      record {
        fits = fits;
        mode_plain = plain;
        stepped =
            sym (ap (λ p. p.0) result)
            ∙ ap (λ n. recorded state n request.request_hash amount_out) count;
        receipt = receipt;
        encoded =
            subst
              (λ n.
                encode_receipt {E = EngineFailure} (record {
                  request_hash = request.request_hash;
                  amount_out = amount_out;
                  state_sequence = n;
                })
                ≡ ok receipt)
              count encoded;
        answered = answered ∙ ap (λ p. ok p.1) result;
      }

  conclude→IsConcluded :
      conclude call request amount_out state ≡ ok (after, return_data) → IsConcluded
  unfolding conclude
  conclude→IsConcluded h =
      let (sequence, counted, h) = >>=-eq-ok _ _ h in
      let (count, fits) = checked_add_u64-eq-some _ _ (ok_or-eq-ok _ _ counted) in
      elim (Bool-cases (state.mode == mode_hostile_readonly_escalation)) [
        | inl hostile ↦ absurd (attempt_fails call (rw hostile at h))
        | inr plain ↦ concluded_of_chain sequence count fits (ne_of_false _ _ plain) (rw plain at h)
      ]

-- generated evaluate
pub evaluate→IsEvaluated :
    (call : Call) (wire_request : List ℕ) (before after : EngineState)
    (return_data : Option (List ℕ))
    → evaluate call wire_request before ≡ ok (after, return_data)
    → IsEvaluated call wire_request before after return_data
unfolding evaluate
evaluate→IsEvaluated call wire_request before after return_data h =
    let (direct, h) = >>-eq-ok _ _ h in
    let (request, decoded, h) = >>=-eq-ok _ _ h in
    let (requested, h) = >>-eq-ok _ _ h in
    let (quote, quoted, h) = >>=-eq-ok _ _ h in
    let (payload, trimmed, h) = >>=-eq-ok _ _ h in
    let (helped, h) = >>-eq-ok _ _ h in
    let c =
      conclude→IsConcluded call request (chosen_output before.mode quote.amount_out) before after
        return_data h in
    record {
      direct = require_direct_core_cpi→IsDirectCoreCall call direct;
      request = request;
      decoded = map_err-eq-ok _ (decode_request wire_request) decoded;
      requested = require_request→IsRequestFor call request before requested;
      quote = quote;
      quoted = map_err-eq-ok _ _ quoted;
      sequence_fits = c.fits;
      not_hostile = c.mode_plain;
      stepped = c.stepped;
      receipt = c.receipt;
      encoded = c.encoded;
      answered = c.answered;
    }
