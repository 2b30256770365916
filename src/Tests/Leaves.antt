-- ===== src/Tests/Leaves.antt =====
-- Examples for the operations, the prefixes of an IAVL tree and the names of the enumerations.
use ics.Prelude.{◌≡◌, refl, ◌⊎◌, false, some, [], ◌∷◌, ◌++◌, arith}
use ics.Prelude.Bytes.{Bytes}
use ics.Prelude.Int.{pos}
use ics.Prelude.Result.{ok}
use ics.Proto.Enums.{hash_op_i32, hash_op_name, hash_op_from_name, sha512_256, fixed32_big, sha256}
use ics.Api.Specs.{iavl_spec, tendermint_leaf, is_iavl_spec}
use ics.Api.Prefix.{read_varint, ensure_iavl_prefix, ensure_leaf_prefix, ensure_inner_prefix}
use ics.Api.Prefix.Headers.{
  IavlHeader, write_varint, ensure_leaf_prefix_iff, ensure_inner_prefix_iff,
  ensure_iavl_prefix-written,
}
use ics.Ops.{do_length, apply_leaf, apply_inner}
use ics.Ops.Framing.{do_length_framing}
use ics.Ops.Binding.{LeafCollides, apply_leaf_binding}
use ics.Serde.Values.{int64, string}
use ics.Serde.Enums.{serialize_hash_op, deserialize_hash_op}
use ics.Serde.Enums.Laws.{deserialize_hash_op-serialize}
use ics.Host.Manager.{
  Crates, CratesLaws, Yields, sha2_256, sha2_512, sha2_512_truncated, keccak_256, ripemd160,
  blake2b_512, blake2s_256, blake3, manager_Yields,
}
use ics.Tests.{digest, sample_prost, sample_host, sample_laws}
use ics.Tests.Samples.{hash_text, key_1, value_a, value_b}

abbrev text_a : Bytes
text_a = 8 ∷ 9 ∷ []

abbrev text_b : Bytes
text_b = 7 ∷ []

framed : do_length fixed32_big text_a ≡ ok (0 ∷ 0 ∷ 0 ∷ 2 ∷ 8 ∷ 9 ∷ [])
unfolding ics.Ops.Codec.to_be_bytes ics.Ops.do_length
framed = refl

do_length_framing_example : (text_a ≡ text_a) × (text_b ≡ text_b)
do_length_framing_example =
    do_length_framing sample_laws fixed32_big text_a text_a (0 ∷ 0 ∷ 0 ∷ 2 ∷ 8 ∷ 9 ∷ [])
      (0 ∷ 0 ∷ 0 ∷ 2 ∷ 8 ∷ 9 ∷ []) text_b text_b tt (omega arith) (omega arith) framed framed refl

abbrev shared_hash : Bytes
shared_hash = hash_text (0 ∷ 1 ∷ 1 ∷ 32 ∷ hash_text value_a)

hashes_first : apply_leaf tendermint_leaf (1 ∷ []) value_a ≡ ok shared_hash
unfolding ics.Tests.sample_prost ics.Tests.sample_host ics.Ops.do_hash ics.Ops.do_length
    ics.Ops.prepare_leaf_data ics.Ops.apply_leaf
hashes_first = refl

hashes_second : apply_leaf tendermint_leaf (1 ∷ []) value_b ≡ ok shared_hash
unfolding ics.Tests.sample_prost ics.Tests.sample_host ics.Ops.do_hash ics.Ops.do_length
    ics.Ops.prepare_leaf_data ics.Ops.apply_leaf
hashes_second = refl

apply_leaf_binding_example :
    ((key_1 ≡ key_1) × (value_a ≡ value_b))
    ⊎ LeafCollides tendermint_leaf (1 ∷ []) value_a (1 ∷ []) value_b
unfolding ics.Tests.sample_prost ics.Tests.sample_host ics.Ops.do_hash
apply_leaf_binding_example =
    apply_leaf_binding sample_laws tendermint_leaf (1 ∷ []) value_a (1 ∷ []) value_b shared_hash tt
      (omega arith, omega arith) (omega arith, omega arith) hashes_first hashes_second

-- Height 0, size 1, version 2, each in zigzag code.
leaf_header_read : ensure_leaf_prefix (0 ∷ 2 ∷ 4 ∷ []) iavl_spec ≡ ok tt
unfolding ics.Tests.sample_prost ics.Api.Specs.is_iavl_spec ics.Api.Prefix.read_varint
    ics.Api.Prefix.ensure_iavl_prefix ics.Api.Prefix.ensure_leaf_prefix
leaf_header_read = refl

ensure_leaf_prefix_iff_example :
    (is_iavl_spec iavl_spec ≡ false) ⊎ IavlHeader (0 ∷ 2 ∷ 4 ∷ []) (pos 0) 0
ensure_leaf_prefix_iff_example =
    (ensure_leaf_prefix_iff (0 ∷ 2 ∷ 4 ∷ []) iavl_spec).0 leaf_header_read

inner_header_read : ensure_inner_prefix (2 ∷ 4 ∷ 4 ∷ 32 ∷ []) iavl_spec (pos 1) (pos 1) ≡ ok tt
unfolding ics.Tests.sample_prost ics.Api.Specs.is_iavl_spec ics.Api.Prefix.read_varint
    ics.Api.Prefix.ensure_iavl_prefix ics.Api.Prefix.ensure_inner_prefix
inner_header_read = refl

ensure_inner_prefix_iff_example :
    (is_iavl_spec iavl_spec ≡ false)
    ⊎ ((IavlHeader (2 ∷ 4 ∷ 4 ∷ 32 ∷ []) (pos 1) 1 ⊎ IavlHeader (2 ∷ 4 ∷ 4 ∷ 32 ∷ []) (pos 1) 34)
        × (pos 1 ≡ hash_op_i32 sha256))
ensure_inner_prefix_iff_example =
    (ensure_inner_prefix_iff (2 ∷ 4 ∷ 4 ∷ 32 ∷ []) iavl_spec (pos 1) (pos 1)).0 inner_header_read

ensure_iavl_prefix-written_example :
    ensure_iavl_prefix
      (write_varint (pos 3) ++ (write_varint (pos 300) ++ (write_varint (pos 70) ++ 32 ∷ [])))
      (pos 1)
    ≡ ok (some 1)
ensure_iavl_prefix-written_example =
    ensure_iavl_prefix-written sample_laws (pos 3) (pos 300) (pos 70) (pos 1) (32 ∷ [])
      (omega arith) (omega arith) (omega arith) (omega arith) (omega arith) (omega arith)

deserialize_hash_op-serialize_example :
    (serialize_hash_op sha512_256 ≡ hash_op_name sha512_256)
    × (deserialize_hash_op (string (serialize_hash_op sha512_256)) ≡ some sha512_256)
    × (deserialize_hash_op (int64 (hash_op_i32 sha512_256)) ≡ some sha512_256)
    × (deserialize_hash_op (string "SHA512_256") ≡ some sha512_256
        → "SHA512_256" ≡ serialize_hash_op sha512_256)
    × (deserialize_hash_op (int64 (pos 6)) ≡ some sha512_256 → pos 6 ≡ hash_op_i32 sha512_256)
    × (deserialize_hash_op (string "SHA512_256") ≡ hash_op_from_name "SHA512_256")
deserialize_hash_op-serialize_example =
    deserialize_hash_op-serialize sample_laws sha512_256 "SHA512_256" (pos 6)

abbrev sample_crates : Crates
sample_crates = record {
  sha256_digest = digest 1 32;
  sha512_digest = digest 2 64;
  sha512_256_digest = digest 3 32;
  keccak256_digest = digest 4 32;
  ripemd160_digest = digest 5 20;
  blake2b512_digest = digest 6 64;
  blake2s256_digest = digest 7 32;
  blake3_hash = digest 8 32;
}

sample_crates_laws : CratesLaws sample_crates
sample_crates_laws = record {
  sha256_length = λ text. refl;
  sha512_length = λ text. refl;
  sha512_256_length = λ text. refl;
  keccak256_length = λ text. refl;
  ripemd160_length = λ text. refl;
  blake2b512_length = λ text. refl;
  blake2s256_length = λ text. refl;
  blake3_length = λ text. refl;
}

manager_Yields_example :
    Yields (sha2_256 sample_crates) 32
    × Yields (sha2_512 sample_crates) 64
    × Yields (sha2_512_truncated sample_crates) 32
    × Yields (keccak_256 sample_crates) 32
    × Yields (ripemd160 sample_crates) 20
    × Yields (blake2b_512 sample_crates) 64
    × Yields (blake2s_256 sample_crates) 32
    × Yields (blake3 sample_crates) 32
manager_Yields_example = manager_Yields sample_crates sample_crates_laws
