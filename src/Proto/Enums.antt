-- ===== src/Proto/Enums.antt =====
-- The enumerations of rust/src/cosmos.ics23.v1.rs with their discriminants and their names in the
-- ProtoBuf definition. `as_str_name` and `from_str_name` are methods of both enumerations.
use Prim.Native.String.{String}
use text.Mathlib.Text.{◌==◌}
use ics.Prelude.{Option, none, some, if◌then◌else◌}
use ics.Prelude.Int.{ℤ, pos}

pub data HashOp : Type 0 where
  no_hash sha256 sha512 keccak256 ripemd160 bitcoin sha512_256 blake2b_512 blake2s_256 : HashOp
  blake3 : HashOp

pub data LengthOp : Type 0 where
  no_prefix var_proto var_rlp fixed32_big fixed32_little fixed64_big fixed64_little : LengthOp
  require_32_bytes require_64_bytes : LengthOp

-- `op as i32`, and `op.into()` for a field of type i32.
abbrev pub hash_op_i32 : HashOp → ℤ
hash_op_i32 no_hash = pos 0
hash_op_i32 sha256 = pos 1
hash_op_i32 sha512 = pos 2
hash_op_i32 keccak256 = pos 3
hash_op_i32 ripemd160 = pos 4
hash_op_i32 bitcoin = pos 5
hash_op_i32 sha512_256 = pos 6
hash_op_i32 blake2b_512 = pos 7
hash_op_i32 blake2s_256 = pos 8
hash_op_i32 blake3 = pos 9

abbrev pub length_op_i32 : LengthOp → ℤ
length_op_i32 no_prefix = pos 0
length_op_i32 var_proto = pos 1
length_op_i32 var_rlp = pos 2
length_op_i32 fixed32_big = pos 3
length_op_i32 fixed32_little = pos 4
length_op_i32 fixed64_big = pos 5
length_op_i32 fixed64_little = pos 6
length_op_i32 require_32_bytes = pos 7
length_op_i32 require_64_bytes = pos 8

unfoldable pub hash_op_name : HashOp → String
hash_op_name no_hash = "NO_HASH"
hash_op_name sha256 = "SHA256"
hash_op_name sha512 = "SHA512"
hash_op_name keccak256 = "KECCAK256"
hash_op_name ripemd160 = "RIPEMD160"
hash_op_name bitcoin = "BITCOIN"
hash_op_name sha512_256 = "SHA512_256"
hash_op_name blake2b_512 = "BLAKE2B_512"
hash_op_name blake2s_256 = "BLAKE2S_256"
hash_op_name blake3 = "BLAKE3"

unfoldable pub hash_op_from_name : String → Option HashOp
hash_op_from_name value =
    if value == "NO_HASH"
    then some no_hash
    else if value == "SHA256"
    then some sha256
    else if value == "SHA512"
    then some sha512
    else if value == "KECCAK256"
    then some keccak256
    else if value == "RIPEMD160"
    then some ripemd160
    else if value == "BITCOIN"
    then some bitcoin
    else if value == "SHA512_256"
    then some sha512_256
    else if value == "BLAKE2B_512"
    then some blake2b_512
    else if value == "BLAKE2S_256"
    then some blake2s_256
    else if value == "BLAKE3"
    then some blake3
    else none

unfoldable pub length_op_name : LengthOp → String
length_op_name no_prefix = "NO_PREFIX"
length_op_name var_proto = "VAR_PROTO"
length_op_name var_rlp = "VAR_RLP"
length_op_name fixed32_big = "FIXED32_BIG"
length_op_name fixed32_little = "FIXED32_LITTLE"
length_op_name fixed64_big = "FIXED64_BIG"
length_op_name fixed64_little = "FIXED64_LITTLE"
length_op_name require_32_bytes = "REQUIRE_32_BYTES"
length_op_name require_64_bytes = "REQUIRE_64_BYTES"

unfoldable pub length_op_from_name : String → Option LengthOp
length_op_from_name value =
    if value == "NO_PREFIX"
    then some no_prefix
    else if value == "VAR_PROTO"
    then some var_proto
    else if value == "VAR_RLP"
    then some var_rlp
    else if value == "FIXED32_BIG"
    then some fixed32_big
    else if value == "FIXED32_LITTLE"
    then some fixed32_little
    else if value == "FIXED64_BIG"
    then some fixed64_big
    else if value == "FIXED64_LITTLE"
    then some fixed64_little
    else if value == "REQUIRE_32_BYTES"
    then some require_32_bytes
    else if value == "REQUIRE_64_BYTES"
    then some require_64_bytes
    else none
