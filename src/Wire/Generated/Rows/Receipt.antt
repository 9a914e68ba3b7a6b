-- ===== src/Wire/Generated/Rows/Receipt.antt =====
-- The values of `EngineReceipt` as rows of fields: widths, values, and back.
use programmable_solana.Base.{ℕ, List, [], ◌∷◌, get_or}
use programmable_solana.Wire.Layout.{Widths, FitAll}
use programmable_solana.Wire.Generated.{EngineReceipt}

abbrev pub widths : Widths
widths = 32 ∷ 8 ∷ 8 ∷ []

abbrev pub row : EngineReceipt → List ℕ
row r = r.request_hash ∷ r.amount_out ∷ r.state_sequence ∷ []

abbrev pub of_row : List ℕ → EngineReceipt
of_row vs = record {
  request_hash = get_or vs 0 0;
  amount_out = get_or vs 1 0;
  state_sequence = get_or vs 2 0;
}

abbrev pub IsValid : EngineReceipt → Type 0
IsValid r = FitAll widths (row r)
