-- ===== src/Core.antt =====
-- The crate `zboot-core` (core/src): plain data and parsers, with no input or output.
pub mod Types
pub mod Parse
pub mod Replication
