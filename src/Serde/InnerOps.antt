-- ===== src/Serde/InnerOps.antt =====
-- The serialization of `InnerOp` in rust/src/cosmos.ics23.v1.serde.rs. An error is `none`.
pub mod RoundTrip
use Prim.Native.String.{String}
use text.Mathlib.Text.{◌==◌}
use ics.Prelude.{Bool, Option, none, some, List, [], ◌∷◌, ◌++◌, if◌then◌else◌}
use ics.Prelude.Bytes.{Bytes}
use ics.Prelude.Int.{ℤ, pos}
use ics.Proto.Enums.{hash_op_i32}
use ics.Proto.Types.{InnerOp}
use ics.Proto.Prost.{Prost}
use ics.Serde.Values.{Fields, Value}
use ics.Serde.Enums.{and_then, deserialize_hash_op}
use ics.Serde.Fields.{Pbjson, bytes_field, hash_field, once}
use ics.Serde.Messages.{Message}
use mathlib.Core.Option

-- `GeneratedField`
pub data InnerField : Type 0 where
  in_hash in_prefix in_suffix : InnerField

unfoldable pub inner_field_of : String → Option InnerField
inner_field_of value =
    if value == "hash"
    then some in_hash
    else if value == "prefix"
    then some in_prefix
    else if value == "suffix"
    then some in_suffix
    else none

-- The variables of `visit_map`.
pub record InnerParts : Type 0 where
  pub hash : Option ℤ
  pub prefix : Option Bytes
  pub suffix : Option Bytes

abbrev pub no_inner_parts : InnerParts
no_inner_parts = record { hash = none; prefix = none; suffix = none }

module _ ⦃prost : Prost⦄ ⦃pbjson : Pbjson⦄ where
  unfoldable pub serialize_inner_op : InnerOp → Option Fields
  serialize_inner_op op =
      and_then (hash_field "hash" op.hash)
        λ hash. some (hash ++ (bytes_field "prefix" op.prefix ++ bytes_field "suffix" op.suffix))

  -- One round of the loop of `visit_map`.
  abbrev pub inner_part : InnerField → Value → InnerParts → Option InnerParts
  inner_part in_hash value parts =
      Option.map (λ h. record parts { hash = some h })
        (once parts.hash (Option.map hash_op_i32 (deserialize_hash_op value)))
  inner_part in_prefix value parts =
      Option.map (λ b. record parts { prefix = some b }) (once parts.prefix (pbjson.bytes_of value))
  inner_part in_suffix value parts =
      Option.map (λ b. record parts { suffix = some b }) (once parts.suffix (pbjson.bytes_of value))

  unfoldable pub inner_parts : Fields → InnerParts → Option InnerParts
  inner_parts [] parts = some parts
  inner_parts ((name, value) ∷ fields) parts =
      and_then (inner_field_of name)
        λ field. and_then (inner_part field value parts) (inner_parts fields)

  abbrev pub inner_op_of : InnerParts → InnerOp
  inner_op_of parts = record {
    hash = Option.get_or parts.hash (pos 0);
    prefix = Option.get_or parts.prefix [];
    suffix = Option.get_or parts.suffix [];
  }

  unfoldable pub deserialize_inner_op : Fields → Option InnerOp
  deserialize_inner_op fields = Option.map inner_op_of (inner_parts fields no_inner_parts)

  abbrev pub inner_op_message : Message InnerOp
  inner_op_message = record { serialize = serialize_inner_op; deserialize = deserialize_inner_op }
