-- ===== src/Wire/Probe/Request.antt =====
-- The engine requests of crates/engine-probe-interface/src/lib.rs as rows of fields: widths, values,
-- and back.
use programmable_solana.Base.{ℕ, List, [], ◌∷◌, get_or}
use programmable_solana.Wire.Layout.{Widths, FitAll}
use programmable_solana.Wire.Probe.{EngineRequest}

abbrev pub widths : Widths
widths = 32 ∷ 32 ∷ 32 ∷ 8 ∷ 8 ∷ 8 ∷ 8 ∷ 8 ∷ 8 ∷ 8 ∷ []

abbrev pub row : EngineRequest → List ℕ
row r =
    r.plan_hash ∷ r.market ∷ r.domain ∷ r.engine_revision ∷ r.amount_in ∷ r.amount_out
    ∷ r.protocol_fee ∷ r.accounted_input_before ∷ r.accounted_output_before ∷ r.accounted_fee_before
    ∷ []

abbrev pub of_row : List ℕ → EngineRequest
of_row vs = record {
  plan_hash = get_or vs 0 0;
  market = get_or vs 1 0;
  domain = get_or vs 2 0;
  engine_revision = get_or vs 3 0;
  amount_in = get_or vs 4 0;
  amount_out = get_or vs 5 0;
  protocol_fee = get_or vs 6 0;
  accounted_input_before = get_or vs 7 0;
  accounted_output_before = get_or vs 8 0;
  accounted_fee_before = get_or vs 9 0;
}

-- Every field is a value of its machine type.
abbrev pub IsValid : EngineRequest → Type 0
IsValid r = FitAll widths (row r)
