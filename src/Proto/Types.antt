-- ===== src/Proto/Types.antt =====
-- The messages of rust/src/cosmos.ics23.v1.rs, field by field. An i32 field is an integer, a byte
-- vector a list of numbers; an enumeration field keeps the i32 of the wire.
use ics.Prelude.{Option, List, Bool}
use ics.Prelude.Bytes.{Bytes}
use ics.Prelude.Int.{ℤ}

pub record LeafOp : Type 0 where
  pub hash : ℤ
  pub prehash_key : ℤ
  pub prehash_value : ℤ
  pub length : ℤ
  pub prefix : Bytes

pub record InnerOp : Type 0 where
  pub hash : ℤ
  pub prefix : Bytes
  pub suffix : Bytes

pub record ExistenceProof : Type 0 where
  pub key : Bytes
  pub value : Bytes
  pub leaf : Option LeafOp
  pub path : List InnerOp

pub record NonExistenceProof : Type 0 where
  pub key : Bytes
  pub left : Option ExistenceProof
  pub right : Option ExistenceProof

pub record InnerSpec : Type 0 where
  pub child_order : List ℤ
  pub child_size : ℤ
  pub min_prefix_length : ℤ
  pub max_prefix_length : ℤ
  pub empty_child : Bytes
  pub hash : ℤ

pub record ProofSpec : Type 0 where
  pub leaf_spec : Option LeafOp
  pub inner_spec : Option InnerSpec
  pub max_depth : ℤ
  pub min_depth : ℤ
  pub prehash_key_before_comparison : Bool

-- `batch_entry::Proof`
pub data BatchOneof : Type 0 where
  exist : ExistenceProof → BatchOneof
  nonexist : NonExistenceProof → BatchOneof

pub record BatchEntry : Type 0 where
  pub proof : Option BatchOneof

pub record BatchProof : Type 0 where
  pub entries : List BatchEntry

pub record CompressedExistenceProof : Type 0 where
  pub key : Bytes
  pub value : Bytes
  pub leaf : Option LeafOp
  pub path : List ℤ

pub record CompressedNonExistenceProof : Type 0 where
  pub key : Bytes
  pub left : Option CompressedExistenceProof
  pub right : Option CompressedExistenceProof

-- `compressed_batch_entry::Proof`
pub data CompressedOneof : Type 0 where
  exist : CompressedExistenceProof → CompressedOneof
  nonexist : CompressedNonExistenceProof → CompressedOneof

pub record CompressedBatchEntry : Type 0 where
  pub proof : Option CompressedOneof

pub record CompressedBatchProof : Type 0 where
  pub entries : List CompressedBatchEntry
  pub lookup_inners : List InnerOp

-- `commitment_proof::Proof`
pub data CommitmentOneof : Type 0 where
  exist : ExistenceProof → CommitmentOneof
  nonexist : NonExistenceProof → CommitmentOneof
  batch : BatchProof → CommitmentOneof
  compressed : CompressedBatchProof → CommitmentOneof

pub record CommitmentProof : Type 0 where
  pub proof : Option CommitmentOneof
