-- ===== src/Proto.antt =====
-- The protobuf data model: rust/src/cosmos.ics23.v1.rs, and what is taken from the prost crate.
pub mod Enums
pub mod Types
pub mod Prost
