-- ===== src/Verify.antt =====
-- rust/src/verify.rs, in parts: the padding of inner nodes, the checks of a proof against its spec,
-- the root that a proof leads to, neighbours, and the two verification functions.
pub mod Shape
pub mod Padding
pub mod Conformance
pub mod Existence
pub mod Neighbor
pub mod NonExistence
pub mod Tree
