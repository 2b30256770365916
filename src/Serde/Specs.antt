-- ===== src/Serde/Specs.antt =====
-- The serialization of `InnerSpec` and `ProofSpec` in rust/src/cosmos.ics23.v1.serde.rs. An error is
-- `none`.
pub mod RoundTrip
use Prim.Native.String.{String}
use text.Mathlib.Text.{◌==◌}
use ics.Prelude.{Bool, true, false, ◌||◌, Option, none, some, List, [], ◌∷◌, if◌then◌else◌}
use ics.Prelude.Bytes.{Bytes}
use ics.Prelude.Int.{ℤ, pos}
use ics.Proto.Enums.{hash_op_i32}
use ics.Proto.Prost.{Prost}
use ics.Serde.Values.{Value, Fields}
use ics.Serde.Enums.{deserialize_hash_op}
use ics.Serde.Fields.{Pbjson, bytes_field, hash_field, once}
use ics.Serde.Messages.{
  Message, write_fields, message_field, messages_field, option_of, messages_of, number_field,
  numbers_field, boolean_field, numbers_of, boolean_of, visit_map,
}
use ics.Serde.InnerOps.{inner_op_message}
use ics.Serde.LeafOps.{leaf_op_message}
use mathlib.Core.Option
use ics.Proto.Types.{LeafOp, InnerSpec, ProofSpec}

-- `GeneratedField` of `InnerSpec`.
pub data InnerSpecField : Type 0 where
  in_child_order in_child_size in_min_prefix_length in_max_prefix_length in_empty_child in_hash :
      InnerSpecField

unfoldable pub inner_spec_field_of : String → Option InnerSpecField
inner_spec_field_of value =
    if value == "childOrder" || value == "child_order"
    then some in_child_order
    else if value == "childSize" || value == "child_size"
    then some in_child_size
    else if value == "minPrefixLength" || value == "min_prefix_length"
    then some in_min_prefix_length
    else if value == "maxPrefixLength" || value == "max_prefix_length"
    then some in_max_prefix_length
    else if value == "emptyChild" || value == "empty_child"
    then some in_empty_child
    else if value == "hash"
    then some in_hash
    else none

-- The variables of `visit_map`.
pub record InnerSpecParts : Type 0 where
  pub child_order : Option (List ℤ)
  pub child_size : Option ℤ
  pub min_prefix_length : Option ℤ
  pub max_prefix_length : Option ℤ
  pub empty_child : Option Bytes
  pub hash : Option ℤ

-- `GeneratedField` of `ProofSpec`.
pub data ProofSpecField : Type 0 where
  in_leaf_spec in_inner_spec in_max_depth in_min_depth in_prehash_key_before_comparison :
      ProofSpecField

unfoldable pub proof_spec_field_of : String → Option ProofSpecField
proof_spec_field_of value =
    if value == "leafSpec" || value == "leaf_spec"
    then some in_leaf_spec
    else if value == "innerSpec" || value == "inner_spec"
    then some in_inner_spec
    else if value == "maxDepth" || value == "max_depth"
    then some in_max_depth
    else if value == "minDepth" || value == "min_depth"
    then some in_min_depth
    else if value == "prehashKeyBeforeComparison" || value == "prehash_key_before_comparison"
    then some in_prehash_key_before_comparison
    else none

-- The variables of `visit_map`.
pub record ProofSpecParts : Type 0 where
  pub leaf_spec : Option LeafOp
  pub inner_spec : Option InnerSpec
  pub max_depth : Option ℤ
  pub min_depth : Option ℤ
  pub prehash_key_before_comparison : Option Bool

module _ ⦃prost : Prost⦄ ⦃pbjson : Pbjson⦄ where
  -- The fields that are written, in order.
  abbrev pub inner_spec_fields : InnerSpec → List (Option Fields)
  inner_spec_fields spec =
      some (numbers_field "childOrder" spec.child_order)
      ∷ some (number_field "childSize" spec.child_size)
      ∷ some (number_field "minPrefixLength" spec.min_prefix_length)
      ∷ some (number_field "maxPrefixLength" spec.max_prefix_length)
      ∷ some (bytes_field "emptyChild" spec.empty_child)
      ∷ hash_field "hash" spec.hash
      ∷ []

  unfoldable pub serialize_inner_spec : InnerSpec → Option Fields
  serialize_inner_spec spec = write_fields (inner_spec_fields spec)

  -- One round of the loop of `visit_map`.
  unfoldable pub inner_spec_part : InnerSpecField → Value → InnerSpecParts → Option InnerSpecParts
  inner_spec_part in_child_order value parts =
      Option.map (λ x. record parts { child_order = some x })
        (once parts.child_order (numbers_of value))
  inner_spec_part in_child_size value parts =
      Option.map (λ x. record parts { child_size = some x })
        (once parts.child_size (pbjson.number_of value))
  inner_spec_part in_min_prefix_length value parts =
      Option.map (λ x. record parts { min_prefix_length = some x })
        (once parts.min_prefix_length (pbjson.number_of value))
  inner_spec_part in_max_prefix_length value parts =
      Option.map (λ x. record parts { max_prefix_length = some x })
        (once parts.max_prefix_length (pbjson.number_of value))
  inner_spec_part in_empty_child value parts =
      Option.map (λ x. record parts { empty_child = some x })
        (once parts.empty_child (pbjson.bytes_of value))
  inner_spec_part in_hash value parts =
      Option.map (λ x. record parts { hash = some x })
        (once parts.hash (Option.map hash_op_i32 (deserialize_hash_op value)))

  abbrev pub no_inner_spec_parts : InnerSpecParts
  no_inner_spec_parts = record {
    child_order = none;
    child_size = none;
    min_prefix_length = none;
    max_prefix_length = none;
    empty_child = none;
    hash = none;
  }

  abbrev pub inner_spec_of_parts : InnerSpecParts → InnerSpec
  inner_spec_of_parts parts = record {
    child_order = Option.get_or parts.child_order [];
    child_size = Option.get_or parts.child_size (pos 0);
    min_prefix_length = Option.get_or parts.min_prefix_length (pos 0);
    max_prefix_length = Option.get_or parts.max_prefix_length (pos 0);
    empty_child = Option.get_or parts.empty_child [];
    hash = Option.get_or parts.hash (pos 0);
  }

  unfoldable pub deserialize_inner_spec : Fields → Option InnerSpec
  deserialize_inner_spec fields =
      Option.map inner_spec_of_parts
        (visit_map inner_spec_field_of inner_spec_part fields no_inner_spec_parts)

  abbrev pub inner_spec_message : Message InnerSpec
  inner_spec_message = record {
    serialize = serialize_inner_spec;
    deserialize = deserialize_inner_spec;
  }

  -- The fields that are written, in order.
  abbrev pub proof_spec_fields : ProofSpec → List (Option Fields)
  proof_spec_fields spec =
      message_field leaf_op_message "leafSpec" spec.leaf_spec
      ∷ message_field inner_spec_message "innerSpec" spec.inner_spec
      ∷ some (number_field "maxDepth" spec.max_depth)
      ∷ some (number_field "minDepth" spec.min_depth)
      ∷ some (boolean_field "prehashKeyBeforeComparison" spec.prehash_key_before_comparison)
      ∷ []

  unfoldable pub serialize_proof_spec : ProofSpec → Option Fields
  serialize_proof_spec spec = write_fields (proof_spec_fields spec)

  -- One round of the loop of `visit_map`.
  unfoldable pub proof_spec_part : ProofSpecField → Value → ProofSpecParts → Option ProofSpecParts
  proof_spec_part in_leaf_spec value parts =
      Option.map (λ x. record parts { leaf_spec = x })
        (once parts.leaf_spec (option_of leaf_op_message value))
  proof_spec_part in_inner_spec value parts =
      Option.map (λ x. record parts { inner_spec = x })
        (once parts.inner_spec (option_of inner_spec_message value))
  proof_spec_part in_max_depth value parts =
      Option.map (λ x. record parts { max_depth = some x })
        (once parts.max_depth (pbjson.number_of value))
  proof_spec_part in_min_depth value parts =
      Option.map (λ x. record parts { min_depth = some x })
        (once parts.min_depth (pbjson.number_of value))
  proof_spec_part in_prehash_key_before_comparison value parts =
      Option.map (λ x. record parts { prehash_key_before_comparison = some x })
        (once parts.prehash_key_before_comparison (boolean_of value))

  abbrev pub no_proof_spec_parts : ProofSpecParts
  no_proof_spec_parts = record {
    leaf_spec = none;
    inner_spec = none;
    max_depth = none;
    min_depth = none;
    prehash_key_before_comparison = none;
  }

  abbrev pub proof_spec_of_parts : ProofSpecParts → ProofSpec
  proof_spec_of_parts parts = record {
    leaf_spec = parts.leaf_spec;
    inner_spec = parts.inner_spec;
    max_depth = Option.get_or parts.max_depth (pos 0);
    min_depth = Option.get_or parts.min_depth (pos 0);
    prehash_key_before_comparison = Option.get_or parts.prehash_key_before_comparison false;
  }

  unfoldable pub deserialize_proof_spec : Fields → Option ProofSpec
  deserialize_proof_spec fields =
      Option.map proof_spec_of_parts
        (visit_map proof_spec_field_of proof_spec_part fields no_proof_spec_parts)

  abbrev pub proof_spec_message : Message ProofSpec
  proof_spec_message = record {
    serialize = serialize_proof_spec;
    deserialize = deserialize_proof_spec;
  }
