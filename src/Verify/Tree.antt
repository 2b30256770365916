-- ===== src/Verify/Tree.antt =====
-- What the proofs of rust/src/verify.rs are about: an ordered Merkle tree under a proof spec, as the
-- prover keeps it, with the list of its pairs as what it stands for.
pub mod Descent
pub mod Soundness
pub mod Gap
pub mod Order
pub mod Refinement
pub mod Steps
pub mod Completeness
pub mod Neighbors
pub mod Absence
use ics.Prelude.{ℕ, ◌<◌, ◌≡◌, ◌≢◌, true, List, [], ◌∷◌, ◌++◌, length, All}
use ics.Prelude.Bytes.{Bytes, bytes_lt}
use ics.Prelude.Numbered.{join}
use ics.Prelude.Result.{ok}
use ics.Proto.Types.{LeafOp, InnerOp, InnerSpec, ProofSpec}
use ics.Proto.Prost.{Prost}
use ics.Host.{HostFunctionsProvider}
use ics.Ops.{do_hash, apply_leaf}
use ics.Ops.Binding.{FitsLength}
use ics.Verify.Conformance.Laws.{Begins}
use ics.Verify.NonExistence.{key_for_comparison}

-- A tree: an absent child, a pair, or a header with numbered children, of which the first `n` count.
pub data Tree : Type 0 where
  hole : Tree
  leaf : Bytes → Bytes → Tree
  node : Bytes → (ℕ → Tree) → Tree

-- The pairs, from left to right.
abbrev pub entries : ℕ → Tree → List (Bytes × Bytes)
entries n hole = []
entries n (leaf key value) = (key, value) ∷ []
entries n (node header child) = join n (λ i. entries n (child i))

module _ ⦃prost : Prost⦄ ⦃host : HostFunctionsProvider⦄ where
  -- The keys increase in the order of comparison.
  abbrev pub IsSorted : ProofSpec → List (Bytes × Bytes) → Type 0
  IsSorted spec [] = Unit
  IsSorted spec (entry ∷ entries) =
      All
        (λ other.
          bytes_lt (key_for_comparison spec entry.0) (key_for_comparison spec other.0) ≡ true)
        entries
      × IsSorted spec entries

  abbrev pub hash_of : InnerSpec → Bytes → Bytes
  hash_of inner = do_hash (prost.hash_op inner.hash)

  module _ (op : LeafOp) (inner : InnerSpec) (n size min : ℕ) where
    -- The tree has the hash, under a leaf operation and an inner spec with `n` children of `size` bytes
    -- after a header of `min` bytes: a pair is hashed by the leaf operation, a node over the hashes of
    -- its children. Only an absent child has the hash of the empty child, and no header begins like a
    -- leaf.
    pub data HasHash : Tree → Bytes → Type 0 where
      absent : {hash : Bytes} → hash ≡ inner.empty_child → HasHash hole hash
      pair :
          {key value hash : Bytes}
          → FitsLength op key value
          → apply_leaf op key value ≡ ok hash
          → hash ≢ inner.empty_child
          → HasHash (leaf key value) hash
      branch :
          {header hash : Bytes} {child : ℕ → Tree} (hashes : ℕ → Bytes)
          → length header ≡ min
          → ¬ Begins op.prefix header
          → ((i : ℕ) → i < n → HasHash (child i) (hashes i))
          → ((i : ℕ) → i < n → length (hashes i) ≡ size)
          → hash ≡ hash_of inner (header ++ join n hashes)
          → hash ≢ inner.empty_child
          → HasHash (node header child) hash
