-- ===== src/Serde/LeafOps.antt =====
-- The serialization of `LeafOp` in rust/src/cosmos.ics23.v1.serde.rs. An error is `none`.
pub mod RoundTrip
use Prim.Native.String.{String}
use text.Mathlib.Text.{◌==◌}
use ics.Prelude.{Bool, ◌||◌, Option, none, some, List, [], ◌∷◌, ◌++◌, if◌then◌else◌}
use ics.Prelude.Bytes.{Bytes}
use ics.Prelude.Int.{ℤ, pos}
use ics.Proto.Enums.{hash_op_i32, length_op_i32}
use ics.Proto.Types.{LeafOp}
use ics.Proto.Prost.{Prost}
use ics.Serde.Values.{Fields, Value}
use ics.Serde.Enums.{and_then, deserialize_hash_op, deserialize_length_op}
use ics.Serde.Fields.{Pbjson, bytes_field, hash_field, length_field, once}
use ics.Serde.Messages.{Message}
use mathlib.Core.Option

-- `GeneratedField`
pub data LeafField : Type 0 where
  in_hash in_prehash_key in_prehash_value in_length in_prefix : LeafField

unfoldable pub leaf_field_of : String → Option LeafField
leaf_field_of value =
    if value == "hash"
    then some in_hash
    else if value == "prehashKey" || value == "prehash_key"
    then some in_prehash_key
    else if value == "prehashValue" || value == "prehash_value"
    then some in_prehash_value
    else if value == "length"
    then some in_length
    else if value == "prefix"
    then some in_prefix
    else none

-- The variables of `visit_map`.
pub record LeafOpParts : Type 0 where
  pub hash : Option ℤ
  pub prehash_key : Option ℤ
  pub prehash_value : Option ℤ
  pub length : Option ℤ
  pub prefix : Option Bytes

abbrev pub no_leaf_parts : LeafOpParts
no_leaf_parts = record {
  hash = none;
  prehash_key = none;
  prehash_value = none;
  length = none;
  prefix = none;
}

module _ ⦃prost : Prost⦄ ⦃pbjson : Pbjson⦄ where
  unfoldable pub serialize_leaf_op : LeafOp → Option Fields
  serialize_leaf_op op = and_then (hash_field "hash" op.hash) λ hash.
      and_then (hash_field "prehashKey" op.prehash_key) λ key.
        and_then (hash_field "prehashValue" op.prehash_value) λ value.
          and_then (length_field "length" op.length)
            λ length. some (hash ++ (key ++ (value ++ (length ++ bytes_field "prefix" op.prefix))))

  abbrev hash_value : Value → Option ℤ
  hash_value value = Option.map hash_op_i32 (deserialize_hash_op value)

  -- One round of the loop of `visit_map`.
  abbrev pub leaf_part : LeafField → Value → LeafOpParts → Option LeafOpParts
  leaf_part in_hash value parts =
      Option.map (λ h. record parts { hash = some h }) (once parts.hash (hash_value value))
  leaf_part in_prehash_key value parts =
      Option.map (λ h. record parts { prehash_key = some h })
        (once parts.prehash_key (hash_value value))
  leaf_part in_prehash_value value parts =
      Option.map (λ h. record parts { prehash_value = some h })
        (once parts.prehash_value (hash_value value))
  leaf_part in_length value parts =
      Option.map (λ l. record parts { length = some l })
        (once parts.length (Option.map length_op_i32 (deserialize_length_op value)))
  leaf_part in_prefix value parts =
      Option.map (λ b. record parts { prefix = some b }) (once parts.prefix (pbjson.bytes_of value))

  unfoldable pub leaf_parts : Fields → LeafOpParts → Option LeafOpParts
  leaf_parts [] parts = some parts
  leaf_parts ((name, value) ∷ fields) parts =
      and_then (leaf_field_of name)
        λ field. and_then (leaf_part field value parts) (leaf_parts fields)

  abbrev pub leaf_op_of : LeafOpParts → LeafOp
  leaf_op_of parts = record {
    hash = Option.get_or parts.hash (pos 0);
    prehash_key = Option.get_or parts.prehash_key (pos 0);
    prehash_value = Option.get_or parts.prehash_value (pos 0);
    length = Option.get_or parts.length (pos 0);
    prefix = Option.get_or parts.prefix [];
  }

  unfoldable pub deserialize_leaf_op : Fields → Option LeafOp
  deserialize_leaf_op fields = Option.map leaf_op_of (leaf_parts fields no_leaf_parts)

  abbrev pub leaf_op_message : Message LeafOp
  leaf_op_message = record { serialize = serialize_leaf_op; deserialize = deserialize_leaf_op }
