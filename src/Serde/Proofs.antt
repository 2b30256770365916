-- ===== src/Serde/Proofs.antt =====
-- The serialization of `ExistenceProof` and `NonExistenceProof` in
-- rust/src/cosmos.ics23.v1.serde.rs. An error is `none`.
pub mod RoundTrip
use Prim.Native.String.{String}
use text.Mathlib.Text.{◌==◌}
use ics.Prelude.{Option, none, some, List, [], ◌∷◌, if◌then◌else◌}
use ics.Prelude.Bytes.{Bytes}
use ics.Proto.Types.{LeafOp, InnerOp, ExistenceProof, NonExistenceProof}
use ics.Proto.Prost.{Prost}
use ics.Serde.Values.{Value, Fields}
use ics.Serde.Fields.{Pbjson, bytes_field, once}
use ics.Serde.Messages.{
  Message, write_fields, message_field, messages_field, option_of, messages_of, visit_map,
}
use ics.Serde.InnerOps.{inner_op_message}
use ics.Serde.LeafOps.{leaf_op_message}
use mathlib.Core.Option

-- `GeneratedField` of the two messages.
pub data ExistenceField : Type 0 where
  in_key in_value in_leaf in_path : ExistenceField

pub data NonExistenceField : Type 0 where
  in_key in_left in_right : NonExistenceField

unfoldable pub existence_field_of : String → Option ExistenceField
existence_field_of value =
    if value == "key"
    then some in_key
    else if value == "value"
    then some in_value
    else if value == "leaf"
    then some in_leaf
    else if value == "path"
    then some in_path
    else none

unfoldable pub non_existence_field_of : String → Option NonExistenceField
non_existence_field_of value =
    if value == "key"
    then some in_key
    else if value == "left"
    then some in_left
    else if value == "right"
    then some in_right
    else none

-- The variables of `visit_map`.
pub record ExistenceParts : Type 0 where
  pub key : Option Bytes
  pub value : Option Bytes
  pub leaf : Option LeafOp
  pub path : Option (List InnerOp)

pub record NonExistenceParts : Type 0 where
  pub key : Option Bytes
  pub left : Option ExistenceProof
  pub right : Option ExistenceProof

module _ ⦃prost : Prost⦄ ⦃pbjson : Pbjson⦄ where
  -- The fields that are written, in order.
  abbrev pub existence_fields : ExistenceProof → List (Option Fields)
  existence_fields proof =
      some (bytes_field "key" proof.key)
      ∷ some (bytes_field "value" proof.value)
      ∷ message_field leaf_op_message "leaf" proof.leaf
      ∷ messages_field inner_op_message "path" proof.path
      ∷ []

  unfoldable pub serialize_existence_proof : ExistenceProof → Option Fields
  serialize_existence_proof proof = write_fields (existence_fields proof)

  -- One round of the loop of `visit_map`.
  unfoldable pub existence_part : ExistenceField → Value → ExistenceParts → Option ExistenceParts
  existence_part in_key value parts =
      Option.map (λ b. record parts { key = some b }) (once parts.key (pbjson.bytes_of value))
  existence_part in_value value parts =
      Option.map (λ b. record parts { value = some b }) (once parts.value (pbjson.bytes_of value))
  existence_part in_leaf value parts =
      Option.map (λ l. record parts { leaf = l })
        (once parts.leaf (option_of leaf_op_message value))
  existence_part in_path value parts =
      Option.map (λ p. record parts { path = some p })
        (once parts.path (messages_of inner_op_message value))

  abbrev pub no_existence_parts : ExistenceParts
  no_existence_parts = record { key = none; value = none; leaf = none; path = none }

  abbrev pub existence_proof_of : ExistenceParts → ExistenceProof
  existence_proof_of parts = record {
    key = Option.get_or parts.key [];
    value = Option.get_or parts.value [];
    leaf = parts.leaf;
    path = Option.get_or parts.path [];
  }

  unfoldable pub deserialize_existence_proof : Fields → Option ExistenceProof
  deserialize_existence_proof fields =
      Option.map existence_proof_of
        (visit_map existence_field_of existence_part fields no_existence_parts)

  abbrev pub existence_message : Message ExistenceProof
  existence_message = record {
    serialize = serialize_existence_proof;
    deserialize = deserialize_existence_proof;
  }

  abbrev pub non_existence_fields : NonExistenceProof → List (Option Fields)
  non_existence_fields proof =
      some (bytes_field "key" proof.key)
      ∷ message_field existence_message "left" proof.left
      ∷ message_field existence_message "right" proof.right
      ∷ []

  unfoldable pub serialize_non_existence_proof : NonExistenceProof → Option Fields
  serialize_non_existence_proof proof = write_fields (non_existence_fields proof)

  unfoldable pub non_existence_part :
      NonExistenceField → Value → NonExistenceParts → Option NonExistenceParts
  non_existence_part in_key value parts =
      Option.map (λ b. record parts { key = some b }) (once parts.key (pbjson.bytes_of value))
  non_existence_part in_left value parts =
      Option.map (λ l. record parts { left = l })
        (once parts.left (option_of existence_message value))
  non_existence_part in_right value parts =
      Option.map (λ r. record parts { right = r })
        (once parts.right (option_of existence_message value))

  abbrev pub no_non_existence_parts : NonExistenceParts
  no_non_existence_parts = record { key = none; left = none; right = none }

  abbrev pub non_existence_proof_of : NonExistenceParts → NonExistenceProof
  non_existence_proof_of parts = record {
    key = Option.get_or parts.key [];
    left = parts.left;
    right = parts.right;
  }

  unfoldable pub deserialize_non_existence_proof : Fields → Option NonExistenceProof
  deserialize_non_existence_proof fields =
      Option.map non_existence_proof_of
        (visit_map non_existence_field_of non_existence_part fields no_non_existence_parts)

  abbrev pub non_existence_message : Message NonExistenceProof
  non_existence_message = record {
    serialize = serialize_non_existence_proof;
    deserialize = deserialize_non_existence_proof;
  }
