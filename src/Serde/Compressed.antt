-- ===== src/Serde/Compressed.antt =====
-- The serialization of `CompressedExistenceProof` and `CompressedNonExistenceProof` in
-- rust/src/cosmos.ics23.v1.serde.rs. An error is `none`.
pub mod RoundTrip
use Prim.Native.String.{String}
use text.Mathlib.Text.{◌==◌}
use ics.Prelude.{Bool, true, false, ◌||◌, Option, none, some, List, [], ◌∷◌, if◌then◌else◌}
use ics.Prelude.Bytes.{Bytes}
use ics.Prelude.Int.{ℤ, pos}
use ics.Proto.Enums.{hash_op_i32}
use ics.Proto.Prost.{Prost}
use ics.Serde.Values.{Value, Fields}
use ics.Serde.Enums.{deserialize_hash_op}
use ics.Serde.Fields.{Pbjson, bytes_field, hash_field, once}
use ics.Serde.Messages.{
  Message, write_fields, message_field, messages_field, option_of, messages_of, number_field,
  numbers_field, boolean_field, numbers_of, boolean_of, visit_map,
}
use ics.Serde.InnerOps.{inner_op_message}
use ics.Serde.LeafOps.{leaf_op_message}
use mathlib.Core.Option
use ics.Proto.Types.{LeafOp, CompressedExistenceProof, CompressedNonExistenceProof}

-- `GeneratedField` of `CompressedExistenceProof`.
pub data CompressedExistenceField : Type 0 where
  in_key in_value in_leaf in_path : CompressedExistenceField

unfoldable pub compressed_existence_field_of : String → Option CompressedExistenceField
compressed_existence_field_of value =
    if value == "key"
    then some in_key
    else if value == "value"
    then some in_value
    else if value == "leaf"
    then some in_leaf
    else if value == "path"
    then some in_path
    else none

-- The variables of `visit_map`.
pub record CompressedExistenceParts : Type 0 where
  pub key : Option Bytes
  pub value : Option Bytes
  pub leaf : Option LeafOp
  pub path : Option (List ℤ)

-- `GeneratedField` of `CompressedNonExistenceProof`.
pub data CompressedNonExistenceField : Type 0 where
  in_key in_left in_right : CompressedNonExistenceField

unfoldable pub compressed_non_existence_field_of : String → Option CompressedNonExistenceField
compressed_non_existence_field_of value =
    if value == "key"
    then some in_key
    else if value == "left"
    then some in_left
    else if value == "right"
    then some in_right
    else none

-- The variables of `visit_map`.
pub record CompressedNonExistenceParts : Type 0 where
  pub key : Option Bytes
  pub left : Option CompressedExistenceProof
  pub right : Option CompressedExistenceProof

module _ ⦃prost : Prost⦄ ⦃pbjson : Pbjson⦄ where
  -- The fields that are written, in order.
  abbrev pub compressed_existence_fields : CompressedExistenceProof → List (Option Fields)
  compressed_existence_fields proof =
      some (bytes_field "key" proof.key)
      ∷ some (bytes_field "value" proof.value)
      ∷ message_field leaf_op_message "leaf" proof.leaf
      ∷ some (numbers_field "path" proof.path)
      ∷ []

  unfoldable pub serialize_compressed_existence : CompressedExistenceProof → Option Fields
  serialize_compressed_existence proof = write_fields (compressed_existence_fields proof)

  -- One round of the loop of `visit_map`.
  unfoldable pub compressed_existence_part :
      CompressedExistenceField → Value → CompressedExistenceParts → Option CompressedExistenceParts
  compressed_existence_part in_key value parts =
      Option.map (λ x. record parts { key = some x }) (once parts.key (pbjson.bytes_of value))
  compressed_existence_part in_value value parts =
      Option.map (λ x. record parts { value = some x }) (once parts.value (pbjson.bytes_of value))
  compressed_existence_part in_leaf value parts =
      Option.map (λ x. record parts { leaf = x })
        (once parts.leaf (option_of leaf_op_message value))
  compressed_existence_part in_path value parts =
      Option.map (λ x. record parts { path = some x }) (once parts.path (numbers_of value))

  abbrev pub no_compressed_existence_parts : CompressedExistenceParts
  no_compressed_existence_parts = record { key = none; value = none; leaf = none; path = none }

  abbrev pub compressed_existence_of : CompressedExistenceParts → CompressedExistenceProof
  compressed_existence_of parts = record {
    key = Option.get_or parts.key [];
    value = Option.get_or parts.value [];
    leaf = parts.leaf;
    path = Option.get_or parts.path [];
  }

  unfoldable pub deserialize_compressed_existence : Fields → Option CompressedExistenceProof
  deserialize_compressed_existence fields = Option.map compressed_existence_of (
      visit_map compressed_existence_field_of compressed_existence_part fields
        no_compressed_existence_parts)

  abbrev pub compressed_existence_message : Message CompressedExistenceProof
  compressed_existence_message = record {
    serialize = serialize_compressed_existence;
    deserialize = deserialize_compressed_existence;
  }

  -- The fields that are written, in order.
  abbrev pub compressed_non_existence_fields : CompressedNonExistenceProof → List (Option Fields)
  compressed_non_existence_fields proof =
      some (bytes_field "key" proof.key)
      ∷ message_field compressed_existence_message "left" proof.left
      ∷ message_field compressed_existence_message "right" proof.right
      ∷ []

  unfoldable pub serialize_compressed_non_existence : CompressedNonExistenceProof → Option Fields
  serialize_compressed_non_existence proof = write_fields (compressed_non_existence_fields proof)

  -- One round of the loop of `visit_map`.
  unfoldable pub compressed_non_existence_part :
      CompressedNonExistenceField
      → Value
      → CompressedNonExistenceParts
      → Option CompressedNonExistenceParts
  compressed_non_existence_part in_key value parts =
      Option.map (λ x. record parts { key = some x }) (once parts.key (pbjson.bytes_of value))
  compressed_non_existence_part in_left value parts =
      Option.map (λ x. record parts { left = x })
        (once parts.left (option_of compressed_existence_message value))
  compressed_non_existence_part in_right value parts =
      Option.map (λ x. record parts { right = x })
        (once parts.right (option_of compressed_existence_message value))

  abbrev pub no_compressed_non_existence_parts : CompressedNonExistenceParts
  no_compressed_non_existence_parts = record { key = none; left = none; right = none }

  abbrev pub compressed_non_existence_of : CompressedNonExistenceParts → CompressedNonExistenceProof
  compressed_non_existence_of parts = record {
    key = Option.get_or parts.key [];
    left = parts.left;
    right = parts.right;
  }

  unfoldable pub deserialize_compressed_non_existence : Fields → Option CompressedNonExistenceProof
  deserialize_compressed_non_existence fields = Option.map compressed_non_existence_of (
      visit_map compressed_non_existence_field_of compressed_non_existence_part fields
        no_compressed_non_existence_parts)

  abbrev pub compressed_non_existence_message : Message CompressedNonExistenceProof
  compressed_non_existence_message = record {
    serialize = serialize_compressed_non_existence;
    deserialize = deserialize_compressed_non_existence;
  }
