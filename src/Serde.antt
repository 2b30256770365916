-- ===== src/Serde.antt =====
-- rust/src/cosmos.ics23.v1.serde.rs: how the types are serialized.
pub mod Values
pub mod Enums
pub mod Fields
pub mod Messages
pub mod InnerOps
pub mod LeafOps
pub mod Specs
pub mod Proofs
pub mod Batches
pub mod Compressed
pub mod CompressedBatches
pub mod Commitments
