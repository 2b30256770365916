-- ===== src/Ops.antt =====
-- rust/src/ops.rs: hashing, length prefixes, and the hash of a leaf and of an inner node.
pub mod Codec
pub mod Framing
pub mod Binding
use ics.Prelude.{ℕ, ◌%◌, ◌^◌, Bool, not, List, [], ◌∷◌, ◌++◌, length, is_empty, ◌==◌}
use ics.Prelude.Bytes.{Bytes}
use ics.Prelude.Result.{
  Result, ok, err, ◌>>=◌, ◌>>◌, ensure, missing_child_hash, missing_leaf_data, invalid_length,
  unsupported_length_op,
}
use ics.Proto.Enums.{
  HashOp, no_hash, sha256, sha512, keccak256, ripemd160, bitcoin, sha512_256, blake2b_512,
  blake2s_256, blake3, LengthOp, no_prefix, var_proto, var_rlp, fixed32_big, fixed32_little,
  fixed64_big, fixed64_little, require_32_bytes, require_64_bytes,
}
use ics.Proto.Types.{InnerOp, LeafOp}
use ics.Proto.Prost.{Prost}
use ics.Host.{HostFunctionsProvider}
use Codec.{to_be_bytes, to_le_bytes}

unfoldable pub do_hash : ⦃host : HostFunctionsProvider⦄ → HashOp → Bytes → Bytes
do_hash ⦃host⦄ no_hash message = message
do_hash ⦃host⦄ sha256 message = host.sha2_256 message
do_hash ⦃host⦄ sha512 message = host.sha2_512 message
do_hash ⦃host⦄ keccak256 message = host.keccak_256 message
do_hash ⦃host⦄ ripemd160 message = host.ripemd160 message
do_hash ⦃host⦄ bitcoin message = host.ripemd160 (host.sha2_256 message)
do_hash ⦃host⦄ sha512_256 message = host.sha2_512_truncated message
do_hash ⦃host⦄ blake2b_512 message = host.blake2b_512 message
do_hash ⦃host⦄ blake2s_256 message = host.blake2s_256 message
do_hash ⦃host⦄ blake3 message = host.blake3 message

-- A usize always fits the u64 of `encode_varint`.
unfoldable pub proto_len : ⦃prost : Prost⦄ → ℕ → Result Bytes
proto_len ⦃prost⦄ len = ok (prost.encode_varint len)

-- `as u32` keeps the low 32 bits, `as u64` all of a usize.
unfoldable pub do_length : ⦃prost : Prost⦄ → LengthOp → Bytes → Result Bytes
unfolding proto_len
do_length no_prefix message = ok message
do_length require_32_bytes message = do ensure (length message == 32) invalid_length; ok message
do_length require_64_bytes message = do ensure (length message == 64) invalid_length; ok message
do_length var_proto message = do len ← proto_len (length message); ok (len ++ message)
do_length fixed32_big message = ok (to_be_bytes 4 (length message % 2 ^ 32) ++ message)
do_length fixed32_little message = ok (to_le_bytes 4 (length message % 2 ^ 32) ++ message)
do_length fixed64_big message = ok (to_be_bytes 8 (length message % 2 ^ 64) ++ message)
do_length fixed64_little message = ok (to_le_bytes 8 (length message % 2 ^ 64) ++ message)
do_length var_rlp message = err unsupported_length_op

module _ ⦃prost : Prost⦄ ⦃host : HostFunctionsProvider⦄ where
  unfoldable pub prepare_leaf_data : HashOp → LengthOp → Bytes → Result Bytes
  prepare_leaf_data prehash len message = do
    ensure (not (is_empty message)) missing_leaf_data
    do_length len (do_hash prehash message)

  unfoldable pub apply_leaf : LeafOp → Bytes → Bytes → Result Bytes
  apply_leaf leaf key value = do
    prekey ← prepare_leaf_data (prost.hash_op leaf.prehash_key) (prost.length_op leaf.length) key
    preval ←
        prepare_leaf_data (prost.hash_op leaf.prehash_value) (prost.length_op leaf.length) value
    ok (do_hash (prost.hash_op leaf.hash) ((leaf.prefix ++ prekey) ++ preval))

  unfoldable pub apply_inner : InnerOp → Bytes → Result Bytes
  apply_inner inner child = do
    ensure (not (is_empty child)) missing_child_hash
    ok (do_hash (prost.hash_op inner.hash) ((inner.prefix ++ child) ++ inner.suffix))
