-- ===== src/Serde/LeafOps/RoundTrip.antt =====
-- `LeafOp` of rust/src/cosmos.ics23.v1.serde.rs, written and read.
use Prim.Native.String.{String}
use ics.Prelude.{
  ◌≡◌, refl, ap, ◌∙◌, inl, inr, Option, none, some, [], ◌∷◌, ◌++◌, Bool-cases, if◌then◌else◌,
}
use ics.Prelude.Bytes.{Bytes}
use ics.Prelude.Int.{ℤ, pos, eqb_ℤ}
use ics.Proto.Enums.{HashOp, LengthOp, hash_op_i32, length_op_i32}
use ics.Proto.Types.{LeafOp}
use ics.Proto.Prost.{Prost, ProstLaws}
use ics.Serde.Values.{Fields, string}
use ics.Serde.Enums.{
  and_then, deserialize_hash_op, serialize_hash_op, deserialize_length_op, serialize_length_op,
}
use ics.Serde.Enums.Laws.{hash_op_back, length_op_back}
use ics.Serde.Fields.{
  Pbjson, PbjsonLaws, bytes_field, hash_field, length_field, kept_bytes, kept_enum,
  get_or-kept_bytes, get_or-kept_enum,
}
use ics.Serde.LeafOps.{
  LeafOpParts, no_leaf_parts, serialize_leaf_op, leaf_parts, leaf_op_of, deserialize_leaf_op,
  leaf_field_of,
}
use mathlib.Core.Option

-- The fields of a variant, or none for 0.
abbrev variant : String → String → ℤ → Fields
variant field name x = if eqb_ℤ x (pos 0) then [] else (field, string name) ∷ []

module _ ⦃prost : Prost⦄ ⦃pbjson : Pbjson⦄ (laws : ProstLaws prost)
    (base64 : PbjsonLaws pbjson) where
  hash_field-eq :
      (field : String) (x : ℤ) (hash : HashOp)
      → x ≡ hash_op_i32 hash
      → hash_field field x ≡ some (variant field (serialize_hash_op hash) x)
  hash_field-eq field x hash h = elim (Bool-cases (eqb_ℤ x (pos 0))) [
    | inl unset ↦ rw unset
    | inr set ↦ rw set (rw (h, laws.try_hash_op_of_i32 hash))
  ]

  length_field-eq :
      (field : String) (x : ℤ) (length : LengthOp)
      → x ≡ length_op_i32 length
      → length_field field x ≡ some (variant field (serialize_length_op length) x)
  length_field-eq field x length h = elim (Bool-cases (eqb_ℤ x (pos 0))) [
    | inl unset ↦ rw unset
    | inr set ↦ rw set (rw (h, laws.try_length_op_of_i32 length))
  ]

  module _ (op : LeafOp) (hash prehash_key prehash_value : HashOp) (length : LengthOp)
      (h : op.hash ≡ hash_op_i32 hash) (k : op.prehash_key ≡ hash_op_i32 prehash_key)
      (v : op.prehash_value ≡ hash_op_i32 prehash_value)
      (l : op.length ≡ length_op_i32 length) where
    abbrev last_fields : Fields
    last_fields = bytes_field "prefix" op.prefix

    abbrev length_fields : Fields
    length_fields = variant "length" (serialize_length_op length) op.length ++ last_fields

    abbrev value_fields : Fields
    value_fields =
        variant "prehashValue" (serialize_hash_op prehash_value) op.prehash_value ++ length_fields

    abbrev key_fields : Fields
    key_fields = variant "prehashKey" (serialize_hash_op prehash_key) op.prehash_key ++ value_fields

    serialize_leaf_op-eq :
        serialize_leaf_op op ≡ some (variant "hash" (serialize_hash_op hash) op.hash ++ key_fields)
    unfolding serialize_leaf_op
    serialize_leaf_op-eq = rw (
      hash_field-eq "hash" op.hash hash h,
      hash_field-eq "prehashKey" op.prehash_key prehash_key k,
      hash_field-eq "prehashValue" op.prehash_value prehash_value v,
      length_field-eq "length" op.length length l,
    )

    -- What is known once the fields up to one are read.
    abbrev known : Option ℤ → Option ℤ → Option ℤ → Option ℤ → Option Bytes → LeafOpParts
    known hash' key' value' length' prefix' = record {
      hash = hash';
      prehash_key = key';
      prehash_value = value';
      length = length';
      prefix = prefix';
    }

    reads_prefix :
        (a b c d : Option ℤ)
        → leaf_parts last_fields (known a b c d none) ≡ some (known a b c d (kept_bytes op.prefix))
    unfolding leaf_parts leaf_field_of
    reads_prefix a b c d = go op.prefix
      where
        go :
            (prefix : Bytes)
            → leaf_parts (bytes_field "prefix" prefix) (known a b c d none)
              ≡ some (known a b c d (kept_bytes prefix))
        go [] = refl
        go (p ∷ prefix) = rw (base64.bytes_of-encode (p ∷ prefix))

    reads_length :
        (a b c : Option ℤ)
        → leaf_parts length_fields (known a b c none none)
          ≡ leaf_parts last_fields (known a b c (kept_enum op.length) none)
    unfolding leaf_parts leaf_field_of deserialize_length_op
    reads_length a b c = elim (Bool-cases (eqb_ℤ op.length (pos 0))) [
      | inl unset ↦ rw unset
      | inr set ↦ rw set (rw (length_op_back length, l))
    ]

    reads_value :
        (a b : Option ℤ)
        → leaf_parts value_fields (known a b none none none)
          ≡ leaf_parts length_fields (known a b (kept_enum op.prehash_value) none none)
    unfolding leaf_parts leaf_field_of deserialize_hash_op
    reads_value a b = elim (Bool-cases (eqb_ℤ op.prehash_value (pos 0))) [
      | inl unset ↦ rw unset
      | inr set ↦ rw set (rw (hash_op_back prehash_value, v))
    ]

    reads_key :
        (a : Option ℤ)
        → leaf_parts key_fields (known a none none none none)
          ≡ leaf_parts value_fields (known a (kept_enum op.prehash_key) none none none)
    unfolding leaf_parts leaf_field_of deserialize_hash_op
    reads_key a = elim (Bool-cases (eqb_ℤ op.prehash_key (pos 0))) [
      | inl unset ↦ rw unset
      | inr set ↦ rw set (rw (hash_op_back prehash_key, k))
    ]

    reads_hash :
        leaf_parts (variant "hash" (serialize_hash_op hash) op.hash ++ key_fields) no_leaf_parts
        ≡ leaf_parts key_fields (known (kept_enum op.hash) none none none none)
    unfolding leaf_parts leaf_field_of deserialize_hash_op
    reads_hash = elim (Bool-cases (eqb_ℤ op.hash (pos 0))) [
      | inl unset ↦ rw unset
      | inr set ↦ rw set (rw (hash_op_back hash, h))
    ]

    -- A serialized `LeafOp` whose operations are variants is read back as it was.
    pub deserialize-serialize_leaf_op :
        and_then (serialize_leaf_op op) deserialize_leaf_op ≡ some op
    unfolding deserialize_leaf_op
    deserialize-serialize_leaf_op =
        ap (λ o. and_then o deserialize_leaf_op) serialize_leaf_op-eq
        ∙ ap (Option.map leaf_op_of)
            (reads_hash ∙ reads_key _ ∙ reads_value _ _ ∙ reads_length _ _ _ ∙ reads_prefix _ _ _ _)
        ∙ λ i. some (record {
          hash = get_or-kept_enum op.hash i;
          prehash_key = get_or-kept_enum op.prehash_key i;
          prehash_value = get_or-kept_enum op.prehash_value i;
          length = get_or-kept_enum op.length i;
          prefix = get_or-kept_bytes op.prefix i;
        })
