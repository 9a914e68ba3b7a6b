-- ===== src/Wire/Probe/Receipt.antt =====
-- The engine receipts of crates/engine-probe-interface/src/lib.rs as rows of fields: widths, values,
-- and back.
use programmable_solana.Base.{ℕ, List, [], ◌∷◌, get_or}
use programmable_solana.Wire.Layout.{Widths, FitAll}
use programmable_solana.Wire.Probe.{EngineReceipt}

abbrev pub widths : Widths
widths = 32 ∷ 8 ∷ []

abbrev pub row : EngineReceipt → List ℕ
row r = r.plan_hash ∷ r.state_sequence ∷ []

abbrev pub of_row : List ℕ → EngineReceipt
of_row vs = record { plan_hash = get_or vs 0 0; state_sequence = get_or vs 1 0 }

abbrev pub IsValid : EngineReceipt → Type 0
IsValid r = FitAll widths (row r)
