-- ===== src/Serde/Enums/Laws.antt =====
-- The serialized enumerations of rust/src/cosmos.ics23.v1.serde.rs, written and read.
use Prim.Native.String.{String}
use text.Mathlib.Text.{◌==◌}
use text.Mathlib.TextEquality.{eq_iff}
use ics.Prelude.{
  ◌^◌, ltb, none, ◌≡◌, refl, sym, ap, ◌∙◌, inl, inr, Option, some, Bool-cases, if◌then◌else◌,
}
use ics.Prelude.Int.{ℤ, pos, negsuc}
use ics.Proto.Enums.{
  hash_op_from_name, HashOp, no_hash, sha256, sha512, keccak256, ripemd160, bitcoin, sha512_256,
  blake2b_512, blake2s_256, blake3, LengthOp, no_prefix, var_proto, var_rlp, fixed32_big,
  fixed32_little, fixed64_big, fixed64_little, require_32_bytes, require_64_bytes, hash_op_i32,
  hash_op_name, length_op_i32, length_op_name, length_op_from_name,
}
use ics.Proto.Prost.{Prost, ProstLaws}
use ics.Serde.Values.{int64, string}
use ics.Serde.Enums.{
  serialize_hash_op, visit_str_hash_op, deserialize_hash_op, serialize_length_op,
  visit_str_length_op, deserialize_length_op,
}

-- One arm of a match on a string: the string is the arm's, or it is for the further arms.
arm :
    {T : Type 0} (name : T → String) (value : String) (op : T) {rest : Option T} {out : T}
    → (rest ≡ some out → value ≡ name out)
    → (if value == name op then some op else rest) ≡ some out
    → value ≡ name out
arm name value op {rest} {out} further e = elim (Bool-cases (value == name op)) [
  | inl same ↦ let is_out : op ≡ out = cc in (eq_iff value (name op)).0 same ∙ ap name is_out
  | inr differ ↦ further (sym (ap (λ b. if b then some op else rest) differ) ∙ e)
]

hash_op_sound :
    (value : String) (op : HashOp)
    → visit_str_hash_op value ≡ some op
    → value ≡ serialize_hash_op op
unfolding visit_str_hash_op serialize_hash_op
hash_op_sound value op = arm serialize_hash_op value no_hash (
    arm serialize_hash_op value sha256 (
      arm serialize_hash_op value sha512 (
        arm serialize_hash_op value keccak256 (
          arm serialize_hash_op value ripemd160 (
            arm serialize_hash_op value bitcoin (
              arm serialize_hash_op value sha512_256 (
                arm serialize_hash_op value blake2b_512 (
                  arm serialize_hash_op value blake2s_256
                    (arm serialize_hash_op value blake3 (λ e. absurd (cc)))))))))))

pub hash_op_back : (op : HashOp) → visit_str_hash_op (serialize_hash_op op) ≡ some op
unfolding visit_str_hash_op serialize_hash_op
hash_op_back no_hash = refl
hash_op_back sha256 = refl
hash_op_back sha512 = refl
hash_op_back keccak256 = refl
hash_op_back ripemd160 = refl
hash_op_back bitcoin = refl
hash_op_back sha512_256 = refl
hash_op_back blake2b_512 = refl
hash_op_back blake2s_256 = refl
hash_op_back blake3 = refl

serialize_hash_op-name : (op : HashOp) → serialize_hash_op op ≡ hash_op_name op
unfolding serialize_hash_op hash_op_name
serialize_hash_op-name no_hash = refl
serialize_hash_op-name sha256 = refl
serialize_hash_op-name sha512 = refl
serialize_hash_op-name keccak256 = refl
serialize_hash_op-name ripemd160 = refl
serialize_hash_op-name bitcoin = refl
serialize_hash_op-name sha512_256 = refl
serialize_hash_op-name blake2b_512 = refl
serialize_hash_op-name blake2s_256 = refl
serialize_hash_op-name blake3 = refl

length_op_sound :
    (value : String) (op : LengthOp)
    → visit_str_length_op value ≡ some op
    → value ≡ serialize_length_op op
unfolding visit_str_length_op serialize_length_op
length_op_sound value op = arm serialize_length_op value no_prefix (
    arm serialize_length_op value var_proto (
      arm serialize_length_op value var_rlp (
        arm serialize_length_op value fixed32_big (
          arm serialize_length_op value fixed32_little (
            arm serialize_length_op value fixed64_big (
              arm serialize_length_op value fixed64_little (
                arm serialize_length_op value require_32_bytes
                  (arm serialize_length_op value require_64_bytes (λ e. absurd (cc))))))))))

pub length_op_back : (op : LengthOp) → visit_str_length_op (serialize_length_op op) ≡ some op
unfolding visit_str_length_op serialize_length_op
length_op_back no_prefix = refl
length_op_back var_proto = refl
length_op_back var_rlp = refl
length_op_back fixed32_big = refl
length_op_back fixed32_little = refl
length_op_back fixed64_big = refl
length_op_back fixed64_little = refl
length_op_back require_32_bytes = refl
length_op_back require_64_bytes = refl

serialize_length_op-name : (op : LengthOp) → serialize_length_op op ≡ length_op_name op
unfolding serialize_length_op length_op_name
serialize_length_op-name no_prefix = refl
serialize_length_op-name var_proto = refl
serialize_length_op-name var_rlp = refl
serialize_length_op-name fixed32_big = refl
serialize_length_op-name fixed32_little = refl
serialize_length_op-name fixed64_big = refl
serialize_length_op-name fixed64_little = refl
serialize_length_op-name require_32_bytes = refl
serialize_length_op-name require_64_bytes = refl

none-ne-some : {A : Type 0} {a : A} → none ≡ some a → ⊥
none-ne-some e = cc

module _ ⦃prost : Prost⦄ (laws : ProstLaws prost) where
  hash_op_of_number :
      (op : HashOp) (number : ℤ)
      → deserialize_hash_op (int64 number) ≡ some op
      → number ≡ hash_op_i32 op
  unfolding deserialize_hash_op
  hash_op_of_number op (pos n) e = elim (Bool-cases (ltb n (2 ^ 31))) [
    | inl small ↦ laws.try_hash_op-eq_some (pos n) op (rw small at e)
    | inr large ↦ absurd (none-ne-some (rw large at e))
  ]
  hash_op_of_number op (negsuc n) e = elim (Bool-cases (ltb n (2 ^ 31))) [
    | inl small ↦ laws.try_hash_op-eq_some (negsuc n) op (rw small at e)
    | inr large ↦ absurd (none-ne-some (rw large at e))
  ]

  hash_op_of_i32 : (op : HashOp) → deserialize_hash_op (int64 (hash_op_i32 op)) ≡ some op
  unfolding deserialize_hash_op
  hash_op_of_i32 no_hash = laws.try_hash_op_of_i32 no_hash
  hash_op_of_i32 sha256 = laws.try_hash_op_of_i32 sha256
  hash_op_of_i32 sha512 = laws.try_hash_op_of_i32 sha512
  hash_op_of_i32 keccak256 = laws.try_hash_op_of_i32 keccak256
  hash_op_of_i32 ripemd160 = laws.try_hash_op_of_i32 ripemd160
  hash_op_of_i32 bitcoin = laws.try_hash_op_of_i32 bitcoin
  hash_op_of_i32 sha512_256 = laws.try_hash_op_of_i32 sha512_256
  hash_op_of_i32 blake2b_512 = laws.try_hash_op_of_i32 blake2b_512
  hash_op_of_i32 blake2s_256 = laws.try_hash_op_of_i32 blake2s_256
  hash_op_of_i32 blake3 = laws.try_hash_op_of_i32 blake3

  -- A `HashOp` is serialized as the name that `as_str_name` gives it, and is read back from this name
  -- and from its discriminant, and from no other string or i64; a string is read as `from_str_name`
  -- reads it.
  pub deserialize_hash_op-serialize :
      (op : HashOp) (value : String) (number : ℤ)
      → (serialize_hash_op op ≡ hash_op_name op)
        × (deserialize_hash_op (string (serialize_hash_op op)) ≡ some op)
        × (deserialize_hash_op (int64 (hash_op_i32 op)) ≡ some op)
        × (deserialize_hash_op (string value) ≡ some op → value ≡ serialize_hash_op op)
        × (deserialize_hash_op (int64 number) ≡ some op → number ≡ hash_op_i32 op)
        × (deserialize_hash_op (string value) ≡ hash_op_from_name value)
  unfolding deserialize_hash_op visit_str_hash_op hash_op_from_name
  deserialize_hash_op-serialize op value number = (
    serialize_hash_op-name op,
    hash_op_back op,
    hash_op_of_i32 op,
    hash_op_sound value op,
    hash_op_of_number op number,
    refl,
  )

  length_op_of_number :
      (op : LengthOp) (number : ℤ)
      → deserialize_length_op (int64 number) ≡ some op
      → number ≡ length_op_i32 op
  unfolding deserialize_length_op
  length_op_of_number op (pos n) e = elim (Bool-cases (ltb n (2 ^ 31))) [
    | inl small ↦ laws.try_length_op-eq_some (pos n) op (rw small at e)
    | inr large ↦ absurd (none-ne-some (rw large at e))
  ]
  length_op_of_number op (negsuc n) e = elim (Bool-cases (ltb n (2 ^ 31))) [
    | inl small ↦ laws.try_length_op-eq_some (negsuc n) op (rw small at e)
    | inr large ↦ absurd (none-ne-some (rw large at e))
  ]

  length_op_of_i32 : (op : LengthOp) → deserialize_length_op (int64 (length_op_i32 op)) ≡ some op
  unfolding deserialize_length_op
  length_op_of_i32 no_prefix = laws.try_length_op_of_i32 no_prefix
  length_op_of_i32 var_proto = laws.try_length_op_of_i32 var_proto
  length_op_of_i32 var_rlp = laws.try_length_op_of_i32 var_rlp
  length_op_of_i32 fixed32_big = laws.try_length_op_of_i32 fixed32_big
  length_op_of_i32 fixed32_little = laws.try_length_op_of_i32 fixed32_little
  length_op_of_i32 fixed64_big = laws.try_length_op_of_i32 fixed64_big
  length_op_of_i32 fixed64_little = laws.try_length_op_of_i32 fixed64_little
  length_op_of_i32 require_32_bytes = laws.try_length_op_of_i32 require_32_bytes
  length_op_of_i32 require_64_bytes = laws.try_length_op_of_i32 require_64_bytes

  -- A `LengthOp` is serialized as the name that `as_str_name` gives it, and is read back from this name
  -- and from its discriminant, and from no other string or i64; a string is read as `from_str_name`
  -- reads it.
  pub deserialize_length_op-serialize :
      (op : LengthOp) (value : String) (number : ℤ)
      → (serialize_length_op op ≡ length_op_name op)
        × (deserialize_length_op (string (serialize_length_op op)) ≡ some op)
        × (deserialize_length_op (int64 (length_op_i32 op)) ≡ some op)
        × (deserialize_length_op (string value) ≡ some op → value ≡ serialize_length_op op)
        × (deserialize_length_op (int64 number) ≡ some op → number ≡ length_op_i32 op)
        × (deserialize_length_op (string value) ≡ length_op_from_name value)
  unfolding deserialize_length_op visit_str_length_op length_op_from_name
  deserialize_length_op-serialize op value number = (
    serialize_length_op-name op,
    length_op_back op,
    length_op_of_i32 op,
    length_op_sound value op,
    length_op_of_number op number,
    refl,
  )
