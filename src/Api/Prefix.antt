-- ===== src/Api/Prefix.antt =====
-- The checks of rust/src/api.rs on the prefix of a leaf and of an inner node, which read the header
-- (height, size, version) of an IAVL node.
pub mod Headers
use ics.Prelude.{
  ℕ, ◌/◌, ◌%◌, ◌^◌, Bool, true, false, not, ◌||◌, Option, none, some, length, ◌==◌, ltb,
  if◌then◌else◌,
}
use ics.Prelude.Bytes.{Bytes}
use ics.Prelude.Int.{ℤ, pos, negsuc, eqb_ℤ, leb_ℤ}
use ics.Prelude.Result.{
  Result, ok, ◌>>=◌, ◌>>◌, ensure, ok_or, height_undecodable, wrong_height, size_undecodable,
  wrong_size, version_undecodable, wrong_version, bad_leaf_prefix, bad_layer_prefix, bad_hash_op,
}
use ics.Proto.Enums.{hash_op_i32, sha256}
use ics.Proto.Types.{ProofSpec}
use ics.Proto.Prost.{Prost}
use ics.Api.Specs.{is_iavl_spec}

-- `ux >> 1` as an i64, and its complement if the low bit is set.
unfoldable pub zigzag : ℕ → Option ℤ
zigzag ux =
    if ltb (ux / 2) (2 ^ 63)
    then some (if ux % 2 == 0 then pos (ux / 2) else negsuc (ux / 2))
    else none

abbrev pair_with {ℓ} : {A : Type ℓ} → Bytes → Option A → Option (A × Bytes)
pair_with rest none = none
pair_with rest (some a) = some (a, rest)

abbrev read_zigzag : Option (ℕ × Bytes) → Option (ℤ × Bytes)
read_zigzag none = none
read_zigzag (some (ux, rest)) = pair_with rest (zigzag ux)

abbrev pub leaf_remaining : Option ℕ → Result (Unit {0})
leaf_remaining none = ok tt
leaf_remaining (some remaining_bytes) = ensure (remaining_bytes == 0) bad_leaf_prefix

abbrev pub inner_remaining : ℤ → Option ℕ → Result (Unit {0})
inner_remaining hash_op none = ok tt
inner_remaining hash_op (some remaining_bytes) = do
  ensure (remaining_bytes == 1 || remaining_bytes == 34) bad_layer_prefix
  ensure (eqb_ℤ hash_op (hash_op_i32 sha256)) bad_hash_op

module _ ⦃prost : Prost⦄ where
  -- The value with what is left of the buffer.
  unfoldable pub read_varint : Bytes → Option (ℤ × Bytes)
  unfolding zigzag
  read_varint buf = read_zigzag (prost.decode_varint buf)

  unfoldable pub ensure_iavl_prefix : Bytes → ℤ → Result (Option ℕ)
  ensure_iavl_prefix prefix min_height = do
    (height, rest) ← ok_or (read_varint prefix) height_undecodable
    ensure (leb_ℤ min_height height) wrong_height
    (size, rest') ← ok_or (read_varint rest) size_undecodable
    ensure (leb_ℤ (pos 0) size) wrong_size
    (version, rest'') ← ok_or (read_varint rest') version_undecodable
    ensure (leb_ℤ (pos 0) version) wrong_version
    ok (some (length rest''))

  unfoldable pub ensure_leaf_prefix : Bytes → ProofSpec → Result (Unit {0})
  ensure_leaf_prefix prefix spec =
      if not (is_iavl_spec spec)
      then ok tt
      else ensure_iavl_prefix prefix (pos 0) >>= leaf_remaining

  unfoldable pub ensure_inner_prefix : Bytes → ProofSpec → ℤ → ℤ → Result (Unit {0})
  ensure_inner_prefix prefix spec min_height hash_op =
      if not (is_iavl_spec spec)
      then ok tt
      else ensure_iavl_prefix prefix min_height >>= inner_remaining hash_op
