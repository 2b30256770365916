-- ===== src/Serde/Batches.antt =====
-- The serialization of `BatchEntry` and `BatchProof` in rust/src/cosmos.ics23.v1.serde.rs. An error
-- is `none`.
pub mod RoundTrip
use Prim.Native.String.{String}
use text.Mathlib.Text.{◌==◌}
use ics.Prelude.{Bool, true, false, ◌||◌, Option, none, some, List, [], ◌∷◌, if◌then◌else◌}
use ics.Prelude.Bytes.{Bytes}
use ics.Prelude.Int.{ℤ, pos}
use ics.Proto.Enums.{hash_op_i32}
use ics.Proto.Prost.{Prost}
use ics.Serde.Values.{Value, Fields}
use ics.Serde.Enums.{deserialize_hash_op}
use ics.Serde.Fields.{Pbjson, bytes_field, hash_field, once}
use ics.Serde.Messages.{
  Message, write_fields, message_field, messages_field, option_of, messages_of, number_field,
  numbers_field, boolean_field, numbers_of, boolean_of, visit_map,
}
use ics.Serde.InnerOps.{inner_op_message}
use ics.Serde.LeafOps.{leaf_op_message}
use mathlib.Core.Option
use ics.Proto.Types.{BatchOneof, BatchEntry, BatchProof}
use ics.Serde.Proofs.{existence_message, non_existence_message}

-- `GeneratedField` of `BatchEntry`.
pub data BatchEntryField : Type 0 where
  in_exist in_nonexist : BatchEntryField

unfoldable pub batch_entry_field_of : String → Option BatchEntryField
batch_entry_field_of value =
    if value == "exist"
    then some in_exist
    else if value == "nonexist"
    then some in_nonexist
    else none

-- `GeneratedField` of `BatchProof`.
pub data BatchProofField : Type 0 where
  in_entries : BatchProofField

unfoldable pub batch_proof_field_of : String → Option BatchProofField
batch_proof_field_of value = if value == "entries" then some in_entries else none

-- The variables of `visit_map`.
pub record BatchProofParts : Type 0 where
  pub entries : Option (List BatchEntry)

module _ ⦃prost : Prost⦄ ⦃pbjson : Pbjson⦄ where
  -- The variant of the oneof, under its name.
  abbrev pub batch_entry_oneof : Option BatchOneof → Option Fields
  batch_entry_oneof none = some []
  batch_entry_oneof (some (BatchOneof.exist v)) = message_field existence_message "exist" (some v)
  batch_entry_oneof (some (BatchOneof.nonexist v)) =
      message_field non_existence_message "nonexist" (some v)

  unfoldable pub serialize_batch_entry : BatchEntry → Option Fields
  serialize_batch_entry entry = write_fields (batch_entry_oneof entry.proof ∷ [])

  -- One round of the loop of `visit_map`, whose variable is the oneof.
  unfoldable pub batch_entry_part :
      BatchEntryField → Value → Option BatchOneof → Option (Option BatchOneof)
  batch_entry_part in_exist value proof =
      once proof
        (Option.map (λ v. Option.map BatchOneof.exist v) (option_of existence_message value))
  batch_entry_part in_nonexist value proof =
      once proof
        (Option.map (λ v. Option.map BatchOneof.nonexist v) (option_of non_existence_message value))

  abbrev pub batch_entry_of : Option BatchOneof → BatchEntry
  batch_entry_of proof = record { proof = proof }

  unfoldable pub deserialize_batch_entry : Fields → Option BatchEntry
  deserialize_batch_entry fields =
      Option.map batch_entry_of (visit_map batch_entry_field_of batch_entry_part fields none)

  abbrev pub batch_entry_message : Message BatchEntry
  batch_entry_message = record {
    serialize = serialize_batch_entry;
    deserialize = deserialize_batch_entry;
  }

  -- The fields that are written, in order.
  abbrev pub batch_proof_fields : BatchProof → List (Option Fields)
  batch_proof_fields batch = messages_field batch_entry_message "entries" batch.entries ∷ []

  unfoldable pub serialize_batch_proof : BatchProof → Option Fields
  serialize_batch_proof batch = write_fields (batch_proof_fields batch)

  -- One round of the loop of `visit_map`.
  unfoldable pub batch_proof_part :
      BatchProofField → Value → BatchProofParts → Option BatchProofParts
  batch_proof_part in_entries value parts =
      Option.map (λ x. record parts { entries = some x })
        (once parts.entries (messages_of batch_entry_message value))

  abbrev pub no_batch_proof_parts : BatchProofParts
  no_batch_proof_parts = record { entries = none }

  abbrev pub batch_proof_of : BatchProofParts → BatchProof
  batch_proof_of parts = record { entries = Option.get_or parts.entries [] }

  unfoldable pub deserialize_batch_proof : Fields → Option BatchProof
  deserialize_batch_proof fields =
      Option.map batch_proof_of
        (visit_map batch_proof_field_of batch_proof_part fields no_batch_proof_parts)

  abbrev pub batch_proof_message : Message BatchProof
  batch_proof_message = record {
    serialize = serialize_batch_proof;
    deserialize = deserialize_batch_proof;
  }
