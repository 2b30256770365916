-- ===== src/Serde/CompressedBatches.antt =====
-- The serialization of `CompressedBatchEntry` and `CompressedBatchProof` in
-- rust/src/cosmos.ics23.v1.serde.rs. An error is `none`.
pub mod RoundTrip
use Prim.Native.String.{String}
use text.Mathlib.Text.{◌==◌}
use ics.Prelude.{Bool, true, false, ◌||◌, Option, none, some, List, [], ◌∷◌, if◌then◌else◌}
use ics.Prelude.Bytes.{Bytes}
use ics.Prelude.Int.{ℤ, pos}
use ics.Proto.Enums.{hash_op_i32}
use ics.Proto.Prost.{Prost}
use ics.Serde.Values.{Value, Fields}
use ics.Serde.Enums.{deserialize_hash_op}
use ics.Serde.Fields.{Pbjson, bytes_field, hash_field, once}
use ics.Serde.Messages.{
  Message, write_fields, message_field, messages_field, option_of, messages_of, number_field,
  numbers_field, boolean_field, numbers_of, boolean_of, visit_map,
}
use ics.Serde.InnerOps.{inner_op_message}
use ics.Serde.LeafOps.{leaf_op_message}
use mathlib.Core.Option
use ics.Proto.Types.{InnerOp, CompressedOneof, CompressedBatchEntry, CompressedBatchProof}
use ics.Serde.Compressed.{compressed_existence_message, compressed_non_existence_message}

-- `GeneratedField` of `CompressedBatchEntry`.
pub data CompressedBatchEntryField : Type 0 where
  in_exist in_nonexist : CompressedBatchEntryField

unfoldable pub compressed_batch_entry_field_of : String → Option CompressedBatchEntryField
compressed_batch_entry_field_of value =
    if value == "exist"
    then some in_exist
    else if value == "nonexist"
    then some in_nonexist
    else none

-- `GeneratedField` of `CompressedBatchProof`.
pub data CompressedBatchField : Type 0 where
  in_entries in_lookup_inners : CompressedBatchField

unfoldable pub compressed_batch_field_of : String → Option CompressedBatchField
compressed_batch_field_of value =
    if value == "entries"
    then some in_entries
    else if value == "lookupInners" || value == "lookup_inners"
    then some in_lookup_inners
    else none

-- The variables of `visit_map`.
pub record CompressedBatchParts : Type 0 where
  pub entries : Option (List CompressedBatchEntry)
  pub lookup_inners : Option (List InnerOp)

module _ ⦃prost : Prost⦄ ⦃pbjson : Pbjson⦄ where
  -- The variant of the oneof, under its name.
  abbrev pub compressed_batch_entry_oneof : Option CompressedOneof → Option Fields
  compressed_batch_entry_oneof none = some []
  compressed_batch_entry_oneof (some (CompressedOneof.exist v)) =
      message_field compressed_existence_message "exist" (some v)
  compressed_batch_entry_oneof (some (CompressedOneof.nonexist v)) =
      message_field compressed_non_existence_message "nonexist" (some v)

  unfoldable pub serialize_compressed_batch_entry : CompressedBatchEntry → Option Fields
  serialize_compressed_batch_entry entry =
      write_fields (compressed_batch_entry_oneof entry.proof ∷ [])

  -- One round of the loop of `visit_map`, whose variable is the oneof.
  unfoldable pub compressed_batch_entry_part :
      CompressedBatchEntryField → Value → Option CompressedOneof → Option (Option CompressedOneof)
  compressed_batch_entry_part in_exist value proof = once proof (
      Option.map (λ v. Option.map CompressedOneof.exist v)
        (option_of compressed_existence_message value))
  compressed_batch_entry_part in_nonexist value proof = once proof (
      Option.map (λ v. Option.map CompressedOneof.nonexist v)
        (option_of compressed_non_existence_message value))

  abbrev pub compressed_batch_entry_of : Option CompressedOneof → CompressedBatchEntry
  compressed_batch_entry_of proof = record { proof = proof }

  unfoldable pub deserialize_compressed_batch_entry : Fields → Option CompressedBatchEntry
  deserialize_compressed_batch_entry fields =
      Option.map compressed_batch_entry_of
        (visit_map compressed_batch_entry_field_of compressed_batch_entry_part fields none)

  abbrev pub compressed_batch_entry_message : Message CompressedBatchEntry
  compressed_batch_entry_message = record {
    serialize = serialize_compressed_batch_entry;
    deserialize = deserialize_compressed_batch_entry;
  }

  -- The fields that are written, in order.
  abbrev pub compressed_batch_fields : CompressedBatchProof → List (Option Fields)
  compressed_batch_fields batch =
      messages_field compressed_batch_entry_message "entries" batch.entries
      ∷ messages_field inner_op_message "lookupInners" batch.lookup_inners
      ∷ []

  unfoldable pub serialize_compressed_batch : CompressedBatchProof → Option Fields
  serialize_compressed_batch batch = write_fields (compressed_batch_fields batch)

  -- One round of the loop of `visit_map`.
  unfoldable pub compressed_batch_part :
      CompressedBatchField → Value → CompressedBatchParts → Option CompressedBatchParts
  compressed_batch_part in_entries value parts =
      Option.map (λ x. record parts { entries = some x })
        (once parts.entries (messages_of compressed_batch_entry_message value))
  compressed_batch_part in_lookup_inners value parts =
      Option.map (λ x. record parts { lookup_inners = some x })
        (once parts.lookup_inners (messages_of inner_op_message value))

  abbrev pub no_compressed_batch_parts : CompressedBatchParts
  no_compressed_batch_parts = record { entries = none; lookup_inners = none }

  abbrev pub compressed_batch_of : CompressedBatchParts → CompressedBatchProof
  compressed_batch_of parts = record {
    entries = Option.get_or parts.entries [];
    lookup_inners = Option.get_or parts.lookup_inners [];
  }

  unfoldable pub deserialize_compressed_batch : Fields → Option CompressedBatchProof
  deserialize_compressed_batch fields =
      Option.map compressed_batch_of
        (visit_map compressed_batch_field_of compressed_batch_part fields no_compressed_batch_parts)

  abbrev pub compressed_batch_message : Message CompressedBatchProof
  compressed_batch_message = record {
    serialize = serialize_compressed_batch;
    deserialize = deserialize_compressed_batch;
  }
