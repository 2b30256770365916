-- ===== src/Serde/InnerOps/RoundTrip.antt =====
-- `InnerOp` of rust/src/cosmos.ics23.v1.serde.rs, written and read.
use ics.Prelude.{◌≡◌, refl, ap, ◌∙◌, inl, inr, Option, none, some, [], ◌∷◌, ◌++◌, Bool-cases}
use ics.Prelude.Bytes.{Bytes}
use ics.Prelude.Int.{ℤ, pos, eqb_ℤ}
use ics.Proto.Enums.{HashOp, hash_op_i32}
use ics.Proto.Types.{InnerOp}
use ics.Proto.Prost.{Prost, ProstLaws}
use ics.Serde.Enums.{and_then, deserialize_hash_op}
use ics.Serde.Enums.Laws.{hash_op_back}
use ics.Serde.Values.{Fields}
use ics.Serde.Fields.{
  Pbjson, PbjsonLaws, bytes_field, hash_field, kept_bytes, kept_enum, get_or-kept_bytes,
  get_or-kept_enum,
}
use ics.Serde.InnerOps.{
  no_inner_parts, serialize_inner_op, inner_parts, inner_op_of, deserialize_inner_op,
  inner_field_of,
}
use mathlib.Core.Option

module _ ⦃prost : Prost⦄ ⦃pbjson : Pbjson⦄ (laws : ProstLaws prost)
    (base64 : PbjsonLaws pbjson) where
  bytes_read :
      (hash : Option ℤ) (prefix suffix : Bytes)
      → inner_parts
          (bytes_field "prefix" prefix ++ bytes_field "suffix" suffix)
          (record { hash = hash; prefix = none; suffix = none })
        ≡ some (record { hash = hash; prefix = kept_bytes prefix; suffix = kept_bytes suffix })
  unfolding inner_parts inner_field_of
  bytes_read hash [] [] = refl
  bytes_read hash [] (s ∷ suffix) = rw (base64.bytes_of-encode (s ∷ suffix))
  bytes_read hash (p ∷ prefix) [] = rw (base64.bytes_of-encode (p ∷ prefix))
  bytes_read hash (p ∷ prefix) (s ∷ suffix) =
      rw (base64.bytes_of-encode (p ∷ prefix)) (rw (base64.bytes_of-encode (s ∷ suffix)))

  hash_read :
      (x : ℤ) (hash : HashOp) (rest : Fields)
      → x ≡ hash_op_i32 hash
      → and_then (hash_field "hash" x) (λ fields. inner_parts (fields ++ rest) no_inner_parts)
        ≡ inner_parts rest (record { hash = kept_enum x; prefix = none; suffix = none })
  unfolding inner_parts inner_field_of deserialize_hash_op
  hash_read x hash rest h = elim (Bool-cases (eqb_ℤ x (pos 0))) [
    | inl unset ↦ rw unset
    | inr set ↦ rw set (rw (h, laws.try_hash_op_of_i32 hash, hash_op_back hash))
  ]

  through :
      (hash : Option Fields) (rest : Fields)
      → and_then (and_then hash λ fields. some (fields ++ rest)) deserialize_inner_op
        ≡ Option.map inner_op_of
            (and_then hash λ fields. inner_parts (fields ++ rest) no_inner_parts)
  unfolding deserialize_inner_op
  through none rest = refl
  through (some fields) rest = refl

  -- A serialized `InnerOp` whose hash is a variant is read back as it was.
  pub deserialize-serialize_inner_op :
      (op : InnerOp) (hash : HashOp)
      → op.hash ≡ hash_op_i32 hash
      → and_then (serialize_inner_op op) deserialize_inner_op ≡ some op
  unfolding serialize_inner_op
  deserialize-serialize_inner_op op hash h =
      let rest = bytes_field "prefix" op.prefix ++ bytes_field "suffix" op.suffix in
      through (hash_field "hash" op.hash) rest
      ∙ ap (Option.map inner_op_of)
          (hash_read op.hash hash rest h ∙ bytes_read (kept_enum op.hash) op.prefix op.suffix)
      ∙ λ i. some (record {
        hash = get_or-kept_enum op.hash i;
        prefix = get_or-kept_bytes op.prefix i;
        suffix = get_or-kept_bytes op.suffix i;
      })
