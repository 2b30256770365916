-- ===== src/Lib.antt =====
-- ICS-23 proofs in Rust (rust/src): a verifier of Merkle proofs that a key is bound to a value under a
-- root, or to none, for trees that a proof spec describes.
--
-- The parts and the files that model them:
-- - rust/src/cosmos.ics23.v1.rs, the messages and enumerations: Proto/Types and Proto/Enums. What the
--   derive macros of the prost crate add, and what the code calls of that crate, is the record `Prost`
--   of Proto/Prost, a parameter; its documented behaviour is `ProstLaws`, which a theorem names where
--   it needs it.
-- - rust/src/cosmos.ics23.v1.serde.rs, the serialization: Serde. Serde/Values has the values that a
--   self-describing format hands over, Serde/Messages what every message does with its fields; then
--   come the two enumerations (Enums), `InnerOp` and `LeafOp` (InnerOps, LeafOps), the specs (Specs),
--   the proofs (Proofs, Compressed), the batches (Batches, CompressedBatches) and the commitment proof
--   (Commitments). The base64 text of bytes and the reading of numbers, from the pbjson crate, is the
--   record `Pbjson` of Serde/Fields, a parameter.
-- - rust/src/host_functions.rs, the trait of hash functions: the record `HostFunctionsProvider` of
--   Host, a parameter about which nothing is assumed. A statement about hashes therefore ends in "or
--   a hash collides", with the two texts. Host/Manager has the implementation that the
--   `host-functions` feature adds, over the digests of other crates, which are the record `Crates`.
-- - rust/src/ops.rs, the hash of a leaf and of an inner node: Ops, with Ops/Framing for the length
--   prefixes and Ops/Binding for what a hash binds.
-- - rust/src/api.rs: Api/Specs for the specs that the crate ships and their comparison, Api/Prefix for
--   the headers of an IAVL tree, Membership for the four entry points and the selection of a proof
--   from a batch.
-- - rust/src/verify.rs: Verify/Conformance for the check of a proof against its spec, Verify/Existence
--   for the root that a proof leads to, Verify/Padding for the branch that a step takes and its empty
--   siblings, Verify/Neighbor for left-most, right-most and neighbouring paths, Verify/NonExistence,
--   with Verify/NonExistence/Compared for the order in which keys are compared.
--   Verify/Tree is no code: it is the ordered Merkle tree that the proofs are about, with its pairs in
--   order, against which the two verification functions are checked.
-- - rust/src/compress.rs, the table of shared inner nodes: Compress.
-- An entry point decompresses (Compress), selects a proof (Membership), and verifies it (Verify), which
-- hashes (Ops) and checks prefixes (Api). A definition has the name of the Rust function; a loop or a
-- closure inside a function has a definition of its own.
--
-- How the code is read. Bytes are natural numbers, of which nothing needs that they are below 256.
-- An i32 is an integer, and each i32 or usize operation wraps as in a release build with a 64-bit
-- usize (Prelude/Int). `Result` (Prelude/Result) has the outcomes `ok`, `err` with the message's
-- constructor, and `panic` for a failed `unwrap`, a slice out of bounds or a division by 0; the
-- entry points, which return a bool in Rust, return a `Result Bool`, so that a panic below them
-- shows. A closure that can only return `Ok` is a plain function. References to the same proof are
-- copies, since nothing mutates one; the vector and the map that `compress_batch` mutates are passed
-- along. The ordered maps are association lists, which only a look-up by key and an iteration in key
-- order observe.
--
-- Every loop is a structural recursion on its list or on the rounds that are left, so there is no
-- fuel. Many theorems about paths are stated for an `IsSized` inner spec (Verify/Shape): its numbers
-- are natural, and the bytes of all children with the prefix stay below 2 ^ 31, as in every spec that
-- the crate ships; `HoldsBranches` says that the child order names every branch. A table of inner
-- nodes has at most 2 ^ 31 entries, since an index is an i32.
--
-- Not modelled: the file descriptor set, and the command-line tools of rust/codegen and
-- rust/no-std-check, which are input and output and an allocator stub. Of the serialization, the texts
-- of errors and the number of fields that a struct announces are left out.
--
-- Tests has a prost crate and a host that compute, a tree of four leaves, and the theorems at work on
-- them.
pub mod Prelude
pub mod Proto
pub mod Host
pub mod Ops
pub mod Api
pub mod Verify
pub mod Compress
pub mod Membership
pub mod Serde
pub mod Tests
