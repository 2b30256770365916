-- ===== src/Serde/Commitments.antt =====
-- The serialization of `CommitmentProof` in rust/src/cosmos.ics23.v1.serde.rs. An error is `none`.
pub mod RoundTrip
use Prim.Native.String.{String}
use text.Mathlib.Text.{◌==◌}
use ics.Prelude.{Bool, true, false, ◌||◌, Option, none, some, List, [], ◌∷◌, if◌then◌else◌}
use ics.Prelude.Bytes.{Bytes}
use ics.Prelude.Int.{ℤ, pos}
use ics.Proto.Enums.{hash_op_i32}
use ics.Proto.Prost.{Prost}
use ics.Serde.Values.{Value, Fields}
use ics.Serde.Enums.{deserialize_hash_op}
use ics.Serde.Fields.{Pbjson, bytes_field, hash_field, once}
use ics.Serde.Messages.{
  Message, write_fields, message_field, messages_field, option_of, messages_of, number_field,
  numbers_field, boolean_field, numbers_of, boolean_of, visit_map,
}
use ics.Serde.InnerOps.{inner_op_message}
use ics.Serde.LeafOps.{leaf_op_message}
use mathlib.Core.Option
use ics.Proto.Types.{CommitmentOneof, CommitmentProof}
use ics.Serde.Proofs.{existence_message, non_existence_message}
use ics.Serde.Batches.{batch_proof_message}
use ics.Serde.CompressedBatches.{compressed_batch_message}

-- `GeneratedField` of `CommitmentProof`.
pub data CommitmentProofField : Type 0 where
  in_exist in_nonexist in_batch in_compressed : CommitmentProofField

unfoldable pub commitment_proof_field_of : String → Option CommitmentProofField
commitment_proof_field_of value =
    if value == "exist"
    then some in_exist
    else if value == "nonexist"
    then some in_nonexist
    else if value == "batch"
    then some in_batch
    else if value == "compressed"
    then some in_compressed
    else none

module _ ⦃prost : Prost⦄ ⦃pbjson : Pbjson⦄ where
  -- The variant of the oneof, under its name.
  abbrev pub commitment_proof_oneof : Option CommitmentOneof → Option Fields
  commitment_proof_oneof none = some []
  commitment_proof_oneof (some (CommitmentOneof.exist v)) =
      message_field existence_message "exist" (some v)
  commitment_proof_oneof (some (CommitmentOneof.nonexist v)) =
      message_field non_existence_message "nonexist" (some v)
  commitment_proof_oneof (some (CommitmentOneof.batch v)) =
      message_field batch_proof_message "batch" (some v)
  commitment_proof_oneof (some (CommitmentOneof.compressed v)) =
      message_field compressed_batch_message "compressed" (some v)

  unfoldable pub serialize_commitment_proof : CommitmentProof → Option Fields
  serialize_commitment_proof commitment =
      write_fields (commitment_proof_oneof commitment.proof ∷ [])

  -- One round of the loop of `visit_map`, whose variable is the oneof.
  unfoldable pub commitment_proof_part :
      CommitmentProofField → Value → Option CommitmentOneof → Option (Option CommitmentOneof)
  commitment_proof_part in_exist value proof =
      once proof
        (Option.map (λ v. Option.map CommitmentOneof.exist v) (option_of existence_message value))
  commitment_proof_part in_nonexist value proof = once proof (
      Option.map (λ v. Option.map CommitmentOneof.nonexist v)
        (option_of non_existence_message value))
  commitment_proof_part in_batch value proof =
      once proof
        (Option.map (λ v. Option.map CommitmentOneof.batch v) (option_of batch_proof_message value))
  commitment_proof_part in_compressed value proof = once proof (
      Option.map (λ v. Option.map CommitmentOneof.compressed v)
        (option_of compressed_batch_message value))

  abbrev pub commitment_proof_of : Option CommitmentOneof → CommitmentProof
  commitment_proof_of proof = record { proof = proof }

  unfoldable pub deserialize_commitment_proof : Fields → Option CommitmentProof
  deserialize_commitment_proof fields =
      Option.map commitment_proof_of
        (visit_map commitment_proof_field_of commitment_proof_part fields none)

  abbrev pub commitment_proof_message : Message CommitmentProof
  commitment_proof_message = record {
    serialize = serialize_commitment_proof;
    deserialize = deserialize_commitment_proof;
  }
