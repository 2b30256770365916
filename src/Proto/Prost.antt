-- ===== src/Proto/Prost.antt =====
-- What the code calls of the prost crate: the accessors that its derive macro adds for enumeration
-- fields, varints, and the encoding of an `InnerOp`. They are parameters of the model; their
-- documented behaviour is `ProstLaws`.
use ics.Prelude.{ℕ, ◌^◌, ◌<◌, ◌≡◌, Option, some, ◌++◌}
use ics.Prelude.Bytes.{Bytes}
use ics.Prelude.Int.{ℤ}
use ics.Proto.Enums.{HashOp, LengthOp, hash_op_i32, length_op_i32}
use ics.Proto.Types.{InnerOp}

pub record Prost : Type 0 where
  -- `op.hash()`, `op.prehash_key()`, `op.prehash_value()` at the i32 of the field
  pub hash_op : ℤ → HashOp
  -- `op.length()`
  pub length_op : ℤ → LengthOp
  -- `TryFrom<i32>`
  pub try_hash_op : ℤ → Option HashOp
  pub try_length_op : ℤ → Option LengthOp
  -- `encoding::encode_varint` of a u64 into an empty vector
  pub encode_varint : ℕ → Bytes
  -- `encoding::decode_varint`, with what is left of the buffer
  pub decode_varint : Bytes → Option (ℕ × Bytes)
  -- `InnerOp::encode_to_vec`
  pub encode_to_vec : InnerOp → Bytes

pub record ProstLaws (prost : Prost) : Type 0 where
  -- a discriminant is read as its constructor
  pub hash_op_of_i32 : (op : HashOp) → prost.hash_op (hash_op_i32 op) ≡ op
  pub length_op_of_i32 : (op : LengthOp) → prost.length_op (length_op_i32 op) ≡ op
  -- `TryFrom<i32>` takes the discriminants and nothing else
  pub try_hash_op_of_i32 : (op : HashOp) → prost.try_hash_op (hash_op_i32 op) ≡ some op
  pub try_length_op_of_i32 : (op : LengthOp) → prost.try_length_op (length_op_i32 op) ≡ some op
  pub try_hash_op-eq_some :
      (x : ℤ) (op : HashOp) → prost.try_hash_op x ≡ some op → x ≡ hash_op_i32 op
  pub try_length_op-eq_some :
      (x : ℤ) (op : LengthOp) → prost.try_length_op x ≡ some op → x ≡ length_op_i32 op
  -- a varint is read back, whatever follows it
  pub decode-encode :
      (n : ℕ) (rest : Bytes)
      → n < 2 ^ 64
      → prost.decode_varint (prost.encode_varint n ++ rest) ≡ some (n, rest)
  -- the encoding of a message determines it
  pub encode_to_vec-inj : (a b : InnerOp) → prost.encode_to_vec a ≡ prost.encode_to_vec b → a ≡ b
