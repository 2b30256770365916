-- ===== src/Serde/Enums.antt =====
-- The serialization of the enumerations in rust/src/cosmos.ics23.v1.serde.rs. A value that a
-- deserializer visits is a number or a string; an error is `none`, its message dropped.
pub mod Laws
use Prim.Native.String.{String}
use text.Mathlib.Text.{◌==◌}
use ics.Prelude.{ℕ, ◌^◌, Bool, Option, none, some, if◌then◌else◌, ltb}
use ics.Prelude.Int.{ℤ, pos, negsuc}
use ics.Proto.Enums.{
  HashOp, no_hash, sha256, sha512, keccak256, ripemd160, bitcoin, sha512_256, blake2b_512,
  blake2s_256, blake3, LengthOp, no_prefix, var_proto, var_rlp, fixed32_big, fixed32_little,
  fixed64_big, fixed64_little, require_32_bytes, require_64_bytes,
}
use ics.Proto.Prost.{Prost}
use ics.Serde.Values.{Value, int64, uint64, string}

unfoldable pub serialize_hash_op : HashOp → String
serialize_hash_op no_hash = "NO_HASH"
serialize_hash_op sha256 = "SHA256"
serialize_hash_op sha512 = "SHA512"
serialize_hash_op keccak256 = "KECCAK256"
serialize_hash_op ripemd160 = "RIPEMD160"
serialize_hash_op bitcoin = "BITCOIN"
serialize_hash_op sha512_256 = "SHA512_256"
serialize_hash_op blake2b_512 = "BLAKE2B_512"
serialize_hash_op blake2s_256 = "BLAKE2S_256"
serialize_hash_op blake3 = "BLAKE3"

unfoldable pub visit_str_hash_op : String → Option HashOp
visit_str_hash_op value =
    if value == "NO_HASH"
    then some no_hash
    else if value == "SHA256"
    then some sha256
    else if value == "SHA512"
    then some sha512
    else if value == "KECCAK256"
    then some keccak256
    else if value == "RIPEMD160"
    then some ripemd160
    else if value == "BITCOIN"
    then some bitcoin
    else if value == "SHA512_256"
    then some sha512_256
    else if value == "BLAKE2B_512"
    then some blake2b_512
    else if value == "BLAKE2S_256"
    then some blake2s_256
    else if value == "BLAKE3"
    then some blake3
    else none

unfoldable pub serialize_length_op : LengthOp → String
serialize_length_op no_prefix = "NO_PREFIX"
serialize_length_op var_proto = "VAR_PROTO"
serialize_length_op var_rlp = "VAR_RLP"
serialize_length_op fixed32_big = "FIXED32_BIG"
serialize_length_op fixed32_little = "FIXED32_LITTLE"
serialize_length_op fixed64_big = "FIXED64_BIG"
serialize_length_op fixed64_little = "FIXED64_LITTLE"
serialize_length_op require_32_bytes = "REQUIRE_32_BYTES"
serialize_length_op require_64_bytes = "REQUIRE_64_BYTES"

unfoldable pub visit_str_length_op : String → Option LengthOp
visit_str_length_op value =
    if value == "NO_PREFIX"
    then some no_prefix
    else if value == "VAR_PROTO"
    then some var_proto
    else if value == "VAR_RLP"
    then some var_rlp
    else if value == "FIXED32_BIG"
    then some fixed32_big
    else if value == "FIXED32_LITTLE"
    then some fixed32_little
    else if value == "FIXED64_BIG"
    then some fixed64_big
    else if value == "FIXED64_LITTLE"
    then some fixed64_little
    else if value == "REQUIRE_32_BYTES"
    then some require_32_bytes
    else if value == "REQUIRE_64_BYTES"
    then some require_64_bytes
    else none

-- `i32::try_from` of an i64 and of a u64.
abbrev pub i32_of_i64 : ℤ → Option ℤ
i32_of_i64 (pos n) = if ltb n (2 ^ 31) then some (pos n) else none
i32_of_i64 (negsuc n) = if ltb n (2 ^ 31) then some (negsuc n) else none

abbrev pub i32_of_u64 : ℕ → Option ℤ
i32_of_u64 n = if ltb n (2 ^ 31) then some (pos n) else none

-- `and_then`
abbrev pub and_then {ℓ κ} : {A : Type ℓ} {B : Type κ} → Option A → (A → Option B) → Option B
and_then none f = none
and_then (some a) f = f a

module _ ⦃prost : Prost⦄ where
  unfoldable pub deserialize_hash_op : Value → Option HashOp
  deserialize_hash_op (int64 v) = and_then (i32_of_i64 v) prost.try_hash_op
  deserialize_hash_op (uint64 v) = and_then (i32_of_u64 v) prost.try_hash_op
  deserialize_hash_op (string value) = visit_str_hash_op value
  deserialize_hash_op _ = none

  unfoldable pub deserialize_length_op : Value → Option LengthOp
  deserialize_length_op (int64 v) = and_then (i32_of_i64 v) prost.try_length_op
  deserialize_length_op (uint64 v) = and_then (i32_of_u64 v) prost.try_length_op
  deserialize_length_op (string value) = visit_str_length_op value
  deserialize_length_op _ = none
