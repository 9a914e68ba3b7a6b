-- ===== src/Wire/Generated/Rows.antt =====
-- The messages of the generated-settlement codec as rows of fields.
pub mod Binding
pub mod Request
pub mod Receipt
