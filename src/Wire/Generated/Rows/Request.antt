-- ===== src/Wire/Generated/Rows/Request.antt =====
-- The values of `EngineRequest` as rows of fields: widths, values, and back.
use programmable_solana.Base.{ℕ, ◌≤◌, ◌≡◌, List, [], ◌∷◌, get_or, length, drop, All}
use programmable_solana.Wire.Bytes.{IsByte}
use programmable_solana.Wire.Layout.{Widths, FitAll}
use programmable_solana.Wire.Generated.{EngineRequest}

abbrev pub widths : Widths
widths = 32 ∷ 32 ∷ 32 ∷ 8 ∷ 8 ∷ 8 ∷ 8 ∷ 2 ∷ 32 ∷ 2 ∷ []

abbrev pub row : EngineRequest → List ℕ
row r =
    r.request_hash ∷ r.market ∷ r.domain ∷ r.engine_revision ∷ r.amount_in
    ∷ r.accounted_input_before ∷ r.accounted_output_before ∷ r.opaque_account_count
    ∷ r.capability_hash ∷ r.payload_len ∷ []

abbrev pub of_row : List ℕ → List ℕ → EngineRequest
of_row vs payload = record {
  request_hash = get_or vs 0 0;
  market = get_or vs 1 0;
  domain = get_or vs 2 0;
  engine_revision = get_or vs 3 0;
  amount_in = get_or vs 4 0;
  accounted_input_before = get_or vs 5 0;
  accounted_output_before = get_or vs 6 0;
  opaque_account_count = get_or vs 7 0;
  capability_hash = get_or vs 8 0;
  payload_len = get_or vs 9 0;
  payload = payload;
}

-- Every field is a value of its machine type, the payload is 128 bytes, and the request keeps the
-- limits: at most eight opaque accounts, and zeros behind the payload's length.
pub record IsValid (r : EngineRequest) : Type 0 where
  pub fits : FitAll widths (row r)
  pub payload_long : length r.payload ≡ 128
  pub payload_bytes : All IsByte r.payload
  pub accounts_few : r.opaque_account_count ≤ 8
  pub payload_short : r.payload_len ≤ 128
  pub padded : All (λ b. b ≡ 0) (drop r.payload_len r.payload)
