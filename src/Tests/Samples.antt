-- ===== src/Tests/Samples.antt =====
-- A tree of four leaves under the Tendermint spec, with its proofs.
use ics.Api.Specs.{tendermint_spec}
use ics.Verify.Existence.Safe.{HasI32Size}
use ics.Prelude.{ℕ, zero, suc, refl, some, List, [], ◌∷◌, ◌++◌, arith}
use ics.Prelude.Bytes.{Bytes}
use ics.Prelude.Int.{pos}
use ics.Proto.Types.{
  InnerOp, ExistenceProof, NonExistenceProof, CommitmentProof, CommitmentOneof, BatchProof,
  BatchEntry, BatchOneof,
}
use ics.Api.Specs.{tendermint_leaf, tendermint_inner}
use ics.Verify.Shape.{IsSized}
use ics.Verify.Padding.Order.{HoldsBranches}
use ics.Tests.{digest, sample_prost, sample_host}
use mathlib.Core.List.{Memᴰ}

abbrev pub hash_text : Bytes → Bytes
hash_text text = digest 1 32 text

abbrev pub leaf_hash : ℕ → Bytes
leaf_hash key = hash_text (0 ∷ 1 ∷ key ∷ 32 ∷ hash_text (key ∷ key ∷ []))

abbrev pub node_hash : Bytes → Bytes → Bytes
node_hash left right = hash_text (1 ∷ left ++ right)

abbrev pub left_step : Bytes → InnerOp
left_step right = record { hash = pos 1; prefix = 1 ∷ []; suffix = right }

abbrev pub right_step : Bytes → InnerOp
right_step left = record { hash = pos 1; prefix = 1 ∷ left; suffix = [] }

abbrev pub node_a : Bytes
node_a = node_hash (leaf_hash 1) (leaf_hash 3)

abbrev pub node_b : Bytes
node_b = node_hash (leaf_hash 5) (leaf_hash 7)

abbrev pub sample_root : Bytes
sample_root = node_hash node_a node_b

-- The value of a leaf is its key twice.
abbrev pub exist_for : ℕ → List InnerOp → ExistenceProof
exist_for key path = record {
  key = key ∷ [];
  value = key ∷ key ∷ [];
  leaf = some tendermint_leaf;
  path = path;
}

abbrev pub exist_1 : ExistenceProof
exist_1 = exist_for 1 (left_step (leaf_hash 3) ∷ left_step node_b ∷ [])

abbrev pub exist_3 : ExistenceProof
exist_3 = exist_for 3 (right_step (leaf_hash 1) ∷ left_step node_b ∷ [])

abbrev pub exist_5 : ExistenceProof
exist_5 = exist_for 5 (left_step (leaf_hash 7) ∷ right_step node_a ∷ [])

abbrev pub exist_7 : ExistenceProof
exist_7 = exist_for 7 (right_step (leaf_hash 5) ∷ right_step node_a ∷ [])

abbrev pub absent_4 : NonExistenceProof
absent_4 = record { key = 4 ∷ []; left = some exist_3; right = some exist_5 }

abbrev pub batch_entries : List BatchEntry
batch_entries =
    record { proof = some (BatchOneof.exist exist_1) }
    ∷ record { proof = some (BatchOneof.nonexist absent_4) }
    ∷ record { proof = some (BatchOneof.exist exist_5) }
    ∷ []

abbrev pub sample_batch : BatchProof
sample_batch = record { entries = batch_entries }

abbrev pub batch_proof : CommitmentProof
batch_proof = record { proof = some (CommitmentOneof.batch sample_batch) }

pub tendermint_sized : IsSized tendermint_inner 2 32 1 1
tendermint_sized = record {
  child_count = refl;
  child_size = refl;
  min_prefix = refl;
  max_prefix = refl;
  has_child = omega arith;
  size_pos = omega arith;
  min-le-max = omega arith;
  max-lt-min = omega arith;
  no_overflow = omega arith;
}

pub tendermint_range : HasI32Size tendermint_spec.inner_spec
tendermint_range = (omega arith, omega arith)

pub tendermint_branches : HoldsBranches tendermint_inner 2
tendermint_branches zero h = Memᴰ.head refl
tendermint_branches (suc zero) h = Memᴰ.tail (Memᴰ.head refl)
tendermint_branches (suc (suc b)) h = absurd (omega arith)

-- Two values with one hash.
abbrev pub key_1 : Bytes
key_1 = 1 ∷ []

abbrev pub value_a : Bytes
value_a = 40 ∷ 1 ∷ []

abbrev pub value_b : Bytes
value_b = 9 ∷ 2 ∷ []
