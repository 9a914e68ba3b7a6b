-- ===== src/Lib.antt =====
-- Verification library of the programmable_solana repository.
--
-- The program. A Core program on Solana keeps markets: a market names two mints, an arbitrary engine
-- program with its state, and a fixed fee policy; its domain and its fee ledger hold the balances
-- that Core accounts for, each behind a vault that Core's addresses control. Providers deposit into a
-- domain. A user swaps asset A for asset B by an instruction that Core checks, quotes, has the engine
-- authorize by a receipt over the digest of the whole plan, settles by three token transfers, and
-- accepts only if the five token accounts changed by exactly the planned amounts. In the experiment
-- engine-generated-settlement the engine chooses the output itself: Core sends it a request that
-- commits to every account, every limit of the user and an ordered list of opaque accounts for the
-- engine's own use, and settles the output that an authenticated receipt names.
--
-- Which file models which part:
--   Base             Boolean tests, lists, results of fallible code, 64- and 128-bit checked arithmetic
--   Wire.Bytes, Wire.Cursor, Wire.Layout
--                    little-endian bytes, the cursor helpers of the codec, and rows of fields
--   Wire.Probe       crates/engine-probe-interface/src/lib.rs: the constants, PlanBinding,
--                    EngineRequest, EngineReceipt, encode_*, decode_*, compute_plan_hash
--   Wire.Digest      what an equality of two digests says
--   Wire.Opaque, Wire.Generated
--                    experiments/engine-generated-settlement/crates/generated-settlement-probe-wire:
--                    capability descriptors, the padded payload and its limits, and the digests
--                    (Opaque); RequestBinding, EngineRequest, EngineReceipt and their codec (Generated)
--   Core.Constants, Core.State, Core.Events, Core.Error
--                    programs/core/src/constants.rs, state.rs, events.rs, error.rs
--   Core.Math        programs/core/src/math.rs: fee_ceil
--   Core.Validation  programs/core/src/validation.rs: the shared guards, each by its name
--   Core.Program     the program id and the seeds in which the repository's Core programs differ
--   Core.Runtime     what Core sees of Solana; the code outside the repository as the record Runtime
--   Core.Constraints the account constraints that the schemas' attributes state
--   Core.Initialize  programs/core/src/instructions/initialize_market_domain_v0.rs
--   Core.Deposit     programs/core/src/instructions/deposit_v0.rs
--   Core.Execute     programs/core/src/instructions/execute_engine_probe_v0.rs; its children hold the
--                    phases of the handler (Guards, Plan, Flow), what its schema, plan and request name
--                    (Schema, Terms), and what is proved of each phase
--   Core.Lifecycle   sequences of the instructions on one market, with outside transfers to the vaults
--   SpikeEngine      test-programs/spike-engine/src/lib.rs: the engine with its accepting mode and its
--                    hostile ones; SpikeEngine.Answers sets its answers against Core's decoder
--   SpikeExchange    the two together: the modes of the engine on which Core settles a swap
--   GeneratedCore    experiments/engine-generated-settlement/programs/generated-settlement-core:
--                    validate_opaque_capabilities (Opaque) and the handler of
--                    execute_engine_generated_probe_v0.rs in its phases (Request, Flow); Instances names
--                    the instructions that are programs/core's at this program's constants
--   Cpmm             quote_exact_in of the constant-product engines
--   GeneratedEngine  experiments/engine-generated-settlement/test-programs/generated-plan-engine: the
--                    engine with its ten modes and its helper call
--   Exchange         the two together: the core's swap on an answer that the engine computes
--   CapabilityProbe  experiments/engine-generated-settlement/test-programs/opaque-capability-probe
--   Examples modules concrete runs
--
-- How state and operations correspond. A handler is a function of its context, its arguments and the
-- world (token accounts, account memory, return data) into a Result: a success with the changed
-- accounts, the new world and the event, an error, or, in the codec, a panic. An instruction's entry
-- point in programs/core/src/lib.rs tests the schema's constraints in the order of the fields, then
-- runs the handler. A failed instruction changes nothing, since Solana rolls it back.
--
-- Numbers. Integers are natural numbers; each checked operation has its bound written out (2 ^ 64 or
-- 2 ^ 128). A public key and a 32-byte array are the numbers that their bytes spell, lowest first, so
-- equality of keys is equality of numbers; the codec writes the bytes out. There is no fuel: every
-- loop of the modelled code is structural.
--
-- What is a parameter. Address derivation and search, the hash function, the clock, the stack height,
-- the token program, account creation and the call of an engine are fields of Runtime (for the
-- engines, of Call), and the theorems hold for all of them; a theorem that needs more names it as a
-- hypothesis. Core.Lifecycle takes the documented effects of the token program for granted where it
-- builds the next holdings: a created token account holds nothing, and a deposit changes no vault but
-- its own.
--
-- What is not modelled. Anchor's serialization of accounts and its discriminators; the rent and the
-- sizes of accounts; the experiment experiments/routed-callback-auth (its wire codec, core and test
-- programs); tests, scripts and documents.
pub mod Base
pub mod Wire
pub mod Core
pub mod GeneratedCore
pub mod SpikeEngine
pub mod Cpmm
pub mod GeneratedEngine
pub mod CapabilityProbe
pub mod Exchange
pub mod SpikeExchange
