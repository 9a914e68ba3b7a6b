-- ===== src/Wire.antt =====
-- The fixed wire codecs.
pub mod Bytes
pub mod Cursor
pub mod Layout
pub mod Digest
pub mod Probe
pub mod Opaque
pub mod Generated
