-- ===== src/SpikeEngine/Evaluates.antt =====
-- What a successful call of the spike engine's `evaluate` has checked and done.
use native.Mathlib.Decide.{ℕ_discrete}
use Prim.Native.Nat.{bit_xor}
use programmable_solana.Base.{
  false, refl, ◌-◌, none, [], ◌∷◌, take, length, set, get_or, list_eq→eq, err, ℕ, ◌+◌, ◌<◌, Bool,
  true, ◌||◌, ◌≡◌, ◌≢◌, ap, ◌∙◌, sym, Option, some, List, ok, map_err-eq-ok, IsU64, ◌==◌,
  require-eq-ok, ok_or-eq-ok, ok-injective, ==_eq, checked_add_u64-eq-some, arith,
}
use mathlib.Core.Path.{subst}
use programmable_solana.Base.Steps.{◌>>◌, >>-eq-ok, >>=-eq-ok}
use programmable_solana.Wire.Probe.{
  core_execute_engine_probe_discriminator, EngineRequest, decode_request, encode_receipt,
  disposable_core_program_id,
}
use programmable_solana.Core.Runtime.{AccountInfo, Instruction}
use programmable_solana.SpikeEngine.{
  Call, EngineState, EngineFailure, ProbeEngineError, mode_accept, mode_missing_receipt,
  mode_wrong_plan_hash, mode_malformed_receipt, is_empty, probe, invalid_mode,
  hostile_cpi_unexpectedly_succeeded, attempt_readonly_to_writable_self_cpi, require_probe,
  require_direct_core_cpi, answer, evaluate, set_mode,
}

-- A call from the Core program, whose instruction is the one on top of the transaction.
pub record IsDirectCoreCall (call : Call) : Type 0 where
  pub index : ℕ
  pub top : Instruction
  pub height : call.stack_height ≡ 2
  pub current : call.current_index ≡ some index
  pub loaded : call.instruction_at index ≡ some top
  pub from_core : top.program_id ≡ disposable_core_program_id
  pub on_route : take 8 top.payload ≡ core_execute_engine_probe_discriminator

-- What the engine answers in each of the modes in which a call can succeed: the receipt, nothing, the
-- receipt with the lowest bit of the plan hash flipped, the receipt without its last byte.
pub data IsAnswerOf (mode : ℕ) (receipt : List ℕ) (return_data : Option (List ℕ)) : Type 0 where
  honest : mode ≡ mode_accept → return_data ≡ some receipt → IsAnswerOf mode receipt return_data
  silent : mode ≡ mode_missing_receipt → return_data ≡ none → IsAnswerOf mode receipt return_data
  flipping :
      mode ≡ mode_wrong_plan_hash
      → return_data ≡ some (set receipt 9 (bit_xor (get_or receipt 9 0) 1))
      → IsAnswerOf mode receipt return_data
  cutting :
      mode ≡ mode_malformed_receipt
      → return_data ≡ some (take (length receipt - 1) receipt)
      → IsAnswerOf mode receipt return_data

pub record IsEvaluated (call : Call) (wire_request : List ℕ) (before after : EngineState)
    (return_data : Option (List ℕ)) : Type 0 where
  pub nothing_else : call.remaining_accounts ≡ []
  pub direct : IsDirectCoreCall call
  pub request : EngineRequest
  pub decoded : decode_request wire_request ≡ ok request
  pub market_named : before.market ≡ request.market
  pub revision_named : before.revision ≡ request.engine_revision
  pub sequence_fits : IsU64 (before.sequence + 1)
  pub stepped :
      after ≡ record before { sequence = before.sequence + 1; last_plan_hash = request.plan_hash }
  pub receipt : List ℕ
  pub encoded :
      encode_receipt {E = EngineFailure}
        (record { plan_hash = request.plan_hash; state_sequence = before.sequence + 1 })
      ≡ ok receipt
  pub answered : answer call before.mode receipt ≡ ok return_data
  pub says : IsAnswerOf before.mode receipt return_data

require_probe-eq : (a b : ℕ) (e : ProbeEngineError) → require_probe (a == b) e ≡ ok tt → a ≡ b
unfolding require_probe
require_probe-eq a b e h = ==_eq a b (require-eq-ok _ _ h)

require_probe-holds :
    (test : Bool) (e : ProbeEngineError) → require_probe test e ≡ ok tt → test ≡ true
unfolding require_probe
require_probe-holds test e h = require-eq-ok _ _ h

nil_of_empty : (xs : List AccountInfo) → is_empty xs ≡ true → xs ≡ []
nil_of_empty [] h = refl
nil_of_empty (x ∷ xs) h = cc

hostile_refused :
    (call : Call) (return_data : Option (List ℕ))
    → (call.exit
        >> (attempt_readonly_to_writable_self_cpi call
            >> err (probe hostile_cpi_unexpectedly_succeeded)))
      ≢ ok return_data
hostile_refused call return_data h =
    let (written, h) = >>-eq-ok _ _ h in let (passed, h) = >>-eq-ok _ _ h in absurd (cc h)

unknown_refused :
    (call : Call) (mode : ℕ) (receipt : List ℕ)
    → mode ≢ 0
    → mode ≢ 1
    → mode ≢ 2
    → mode ≢ 3
    → mode ≢ 4
    → answer call mode receipt ≡ err (probe invalid_mode)
unfolding answer
unknown_refused call mode receipt n0 n1 n2 n3 n4 =
    let t0 : (mode == 0) ≡ false = ground arith in
    let t1 : (mode == 1) ≡ false = ground arith in
    let t2 : (mode == 2) ≡ false = ground arith in
    let t3 : (mode == 3) ≡ false = ground arith in
    let t4 : (mode == 4) ≡ false = ground arith in rw (t0, t1, t2, t3, t4) refl

answer→IsAnswerOf :
    (call : Call) (mode : ℕ) (receipt : List ℕ) (return_data : Option (List ℕ))
    → answer call mode receipt ≡ ok return_data
    → IsAnswerOf mode receipt return_data
unfolding answer
answer→IsAnswerOf call mode receipt return_data h =
    let in_mode : (k : ℕ) → mode ≡ k → answer call k receipt ≡ ok return_data =
      λ k e. subst (λ m. answer call m receipt ≡ ok return_data) e h in
    elim (ℕ_discrete mode 0) [
      | yes e ↦ honest e (sym (ok-injective (in_mode 0 e)))
      | no n0 ↦ elim (ℕ_discrete mode 1) [
        | yes e ↦ absurd (hostile_refused call return_data (in_mode 1 e))
        | no n1 ↦ elim (ℕ_discrete mode 2) [
          | yes e ↦ silent e (sym (ok-injective (in_mode 2 e)))
          | no n2 ↦ elim (ℕ_discrete mode 3) [
            | yes e ↦ flipping e (sym (ok-injective (in_mode 3 e)))
            | no n3 ↦ elim (ℕ_discrete mode 4) [
              | yes e ↦ cutting e (sym (ok-injective (in_mode 4 e)))
              | no n4 ↦ absurd (cc (sym (unknown_refused call mode receipt n0 n1 n2 n3 n4) ∙ h))
            ]
          ]
        ]
      ]
    ]

require_direct_core_cpi→IsDirectCoreCall :
    (call : Call) → require_direct_core_cpi call ≡ ok tt → IsDirectCoreCall call
unfolding require_direct_core_cpi
require_direct_core_cpi→IsDirectCoreCall call h =
    let (height, h) = >>-eq-ok _ _ h in
    let (index, current, h) = >>=-eq-ok _ _ h in
    let (top, loaded, h) = >>=-eq-ok _ _ h in
    let (caller, route) = >>-eq-ok _ _ h in
    record {
      index = index;
      top = top;
      height = require_probe-eq _ _ _ height;
      current = ok_or-eq-ok _ _ current;
      loaded = ok_or-eq-ok _ _ loaded;
      from_core = require_probe-eq _ _ _ caller;
      on_route = list_eq→eq _ _ (require_probe-holds _ _ route);
    }

-- A call of the spike engine's evaluate that succeeds was given no further account, came
-- directly from Core on the route of the engine probe, carries a request for the engine's own
-- market and revision, counts the sequence up by one without overflow, keeps the request's plan
-- hash and changes nothing else of the state; it returns the receipt of the two in the
-- accepting mode, nothing in the missing mode, the receipt with the lowest bit of its plan hash
-- flipped in the wrong-hash mode, the receipt without its last byte in the malformed mode, and
-- there is no other mode in which it succeeds.
pub evaluate→IsEvaluated :
    (call : Call) (wire_request : List ℕ) (before after : EngineState)
    (return_data : Option (List ℕ))
    → evaluate call wire_request before ≡ ok (after, return_data)
    → IsEvaluated call wire_request before after return_data
unfolding evaluate
evaluate→IsEvaluated call wire_request before after return_data h =
    let (none_left, h) = >>-eq-ok _ _ h in
    let (direct, h) = >>-eq-ok _ _ h in
    let (request, decoded, h) = >>=-eq-ok _ _ h in
    let (market, h) = >>-eq-ok _ _ h in
    let (revision, h) = >>-eq-ok _ _ h in
    let (sequence, counted, h) = >>=-eq-ok _ _ h in
    let (receipt, encoded, h) = >>=-eq-ok _ _ h in
    let (answered_with, answered, h) = >>=-eq-ok _ _ h in
    let result = ok-injective h in
    let count = checked_add_u64-eq-some _ _ (ok_or-eq-ok _ _ counted) in
    let course = answered ∙ ap (λ p. ok p.1) result in
    record {
      nothing_else = nil_of_empty _ (require_probe-holds _ _ none_left);
      direct = require_direct_core_cpi→IsDirectCoreCall call direct;
      request = request;
      decoded = map_err-eq-ok _ (decode_request wire_request) decoded;
      market_named = require_probe-eq _ _ _ market;
      revision_named = require_probe-eq _ _ _ revision;
      sequence_fits = omega (arith, count);
      stepped =
          sym (ap (λ p. p.0) result)
          ∙ ap (λ n. record before { sequence = n; last_plan_hash = request.plan_hash }) count.0;
      receipt = receipt;
      encoded =
          subst
            (λ n.
              encode_receipt {E = EngineFailure}
                (record { plan_hash = request.plan_hash; state_sequence = n })
              ≡ ok receipt)
            count.0 encoded;
      answered = course;
      says = answer→IsAnswerOf call before.mode receipt return_data course;
    }

-- A change of the mode by the signing authority.
pub record IsModeSet (authority : AccountInfo) (mode : ℕ) (before after : EngineState)
    : Type 0 where
  pub signed : authority.is_signer ≡ true
  pub authorized : before.authority ≡ authority.key
  pub mode_known : mode < 5
  pub changed : after ≡ record before { mode = mode }

known_mode :
    (mode : ℕ)
    → (mode == 0 || (mode == 1 || (mode == 2 || (mode == 3 || mode == 4)))) ≡ true
    → mode < 5
known_mode mode h = ground arith

-- A change of the spike engine's mode that succeeds was signed by the engine's authority, is to
-- one of the five modes, and changes nothing but the mode.
pub set_mode→IsModeSet :
    (remaining_accounts : List AccountInfo) (authority : AccountInfo) (mode : ℕ)
    (before after : EngineState)
    → set_mode remaining_accounts authority mode before ≡ ok after
    → IsModeSet authority mode before after
unfolding set_mode
set_mode→IsModeSet remaining_accounts authority mode before after h =
    let (authorized, h) = >>-eq-ok _ _ h in
    let (signed, h) = >>-eq-ok _ _ h in
    let (none_left, h) = >>-eq-ok _ _ h in
    let (known, h) = >>-eq-ok _ _ h in
    record {
      signed = require-eq-ok _ _ signed;
      authorized = require_probe-eq _ _ _ authorized;
      mode_known = known_mode mode (require_probe-holds _ _ known);
      changed = sym (ok-injective h);
    }
