-- ===== src/Serde/Proofs/RoundTrip.antt =====
-- `ExistenceProof` and `NonExistenceProof` of rust/src/cosmos.ics23.v1.serde.rs, written and read.
use ics.Prelude.{All-imp, ◌≡◌, refl, ap, ◌∙◌, Option, none, some, List, All}
use ics.Prelude.Bytes.{Bytes}
use ics.Prelude.Int.{ℤ}
use ics.Proto.Enums.{HashOp, LengthOp, hash_op_i32, length_op_i32}
use ics.Proto.Types.{LeafOp, InnerOp, ExistenceProof, NonExistenceProof}
use ics.Proto.Prost.{Prost, ProstLaws}
use ics.Serde.Fields.{Pbjson, PbjsonLaws, kept_bytes, get_or-kept_bytes}
use ics.Serde.InnerOps.{serialize_inner_op, deserialize_inner_op, inner_op_message}
use ics.Serde.InnerOps.RoundTrip.{deserialize-serialize_inner_op}
use ics.Serde.LeafOps.{serialize_leaf_op, deserialize_leaf_op, leaf_op_message}
use ics.Serde.LeafOps.RoundTrip.{deserialize-serialize_leaf_op}
use ics.Serde.Messages.Laws.{
  Returns, IsNoneOr, IsNoneOr-imp, kept_list, get_or-kept_list, and_then-back,
}
use ics.Serde.Messages.Carries.{
  CarriesAll, CarriesAll-reads, done, ◌▸◌, carry_bytes, carry_message, carry_messages,
}
use ics.Serde.Proofs.{
  existence_fields, non_existence_fields, in_left, in_right, ExistenceParts, in_key, in_value,
  in_leaf, in_path, NonExistenceParts, existence_field_of, existence_part,
  serialize_existence_proof, no_existence_parts, existence_proof_of, deserialize_existence_proof,
  existence_message, non_existence_field_of, non_existence_part, serialize_non_existence_proof,
  no_non_existence_parts, non_existence_proof_of, deserialize_non_existence_proof,
  non_existence_message,
}
use mathlib.Core.Option

-- The i32 is the discriminant of a variant.
abbrev pub IsHash : ℤ → Type 0
IsHash x = (hash : HashOp) × (x ≡ hash_op_i32 hash)

abbrev pub IsLength : ℤ → Type 0
IsLength x = (length : LengthOp) × (x ≡ length_op_i32 length)

-- A message whose enumeration fields hold variants.
pub record IsLeafOp (op : LeafOp) : Type 0 where
  pub hash : IsHash op.hash
  pub prehash_key : IsHash op.prehash_key
  pub prehash_value : IsHash op.prehash_value
  pub length : IsLength op.length

abbrev pub IsInnerOp : InnerOp → Type 0
IsInnerOp op = IsHash op.hash

pub record IsExistence (proof : ExistenceProof) : Type 0 where
  pub leaf : IsNoneOr IsLeafOp proof.leaf
  pub path : All IsInnerOp proof.path

pub record IsNonExistence (proof : NonExistenceProof) : Type 0 where
  pub left : IsNoneOr IsExistence proof.left
  pub right : IsNoneOr IsExistence proof.right

module _ ⦃prost : Prost⦄ ⦃pbjson : Pbjson⦄ (laws : ProstLaws prost)
    (base64 : PbjsonLaws pbjson) where
  pub leaf_op-Returns : (op : LeafOp) → IsLeafOp op → Returns leaf_op_message op
  leaf_op-Returns op h = and_then-back (serialize_leaf_op op) deserialize_leaf_op (
      deserialize-serialize_leaf_op laws base64 op h.hash.0 h.prehash_key.0 h.prehash_value.0
        h.length.0 h.hash.1 h.prehash_key.1 h.prehash_value.1 h.length.1)

  pub inner_op-Returns : (op : InnerOp) → IsInnerOp op → Returns inner_op_message op
  inner_op-Returns op h =
      and_then-back (serialize_inner_op op) deserialize_inner_op
        (deserialize-serialize_inner_op laws base64 op h.0 h.1)

  -- What is known once the fields up to one are read.
  abbrev existence_known :
      Option Bytes → Option Bytes → Option LeafOp → Option (List InnerOp) → ExistenceParts
  existence_known key value leaf path = record {
    key = key;
    value = value;
    leaf = leaf;
    path = path;
  }

  existence-carried :
      (proof : ExistenceProof)
      → IsExistence proof
      → CarriesAll existence_field_of existence_part (existence_fields proof) no_existence_parts (
          existence_known
            (kept_bytes proof.key)
            (kept_bytes proof.value)
            proof.leaf
            (kept_list proof.path))
  unfolding existence_field_of existence_part
  existence-carried proof h =
      let key = kept_bytes proof.key in
      let value = kept_bytes proof.value in
      carry_bytes "key" in_key refl base64 (λ k. existence_known k none none none) proof.key
        (λ v. refl)
      ▸ carry_bytes "value" in_value refl base64 (λ v. existence_known key v none none) proof.value
          (λ v. refl)
      ▸ carry_message "leaf" in_leaf refl leaf_op_message (λ l. existence_known key value l none)
          proof.leaf (λ v. refl) (IsNoneOr-imp leaf_op-Returns proof.leaf h.leaf)
      ▸ carry_messages "path" in_path refl inner_op_message
          (λ p. existence_known key value proof.leaf p) proof.path (λ v. refl)
          (All-imp _ inner_op-Returns proof.path h.path)
      ▸ done

  pub existence-Returns :
      (proof : ExistenceProof) → IsExistence proof → Returns existence_message proof
  unfolding serialize_existence_proof deserialize_existence_proof
  existence-Returns proof h =
      let (written, w, read) = CarriesAll-reads (existence-carried proof h) in
      (
        written,
        w,
        ap (Option.map existence_proof_of) read ∙ λ i. some (record {
          key = get_or-kept_bytes proof.key i;
          value = get_or-kept_bytes proof.value i;
          leaf = proof.leaf;
          path = get_or-kept_list proof.path i;
        }),
      )

  abbrev non_existence_known :
      Option Bytes → Option ExistenceProof → Option ExistenceProof → NonExistenceParts
  non_existence_known key left right = record { key = key; left = left; right = right }

  non_existence-carried :
      (proof : NonExistenceProof)
      → IsNonExistence proof
      → CarriesAll non_existence_field_of non_existence_part
          (non_existence_fields proof)
          no_non_existence_parts
          (non_existence_known (kept_bytes proof.key) proof.left proof.right)
  unfolding non_existence_field_of non_existence_part
  non_existence-carried proof h =
      let key = kept_bytes proof.key in
      carry_bytes "key" in_key refl base64 (λ k. non_existence_known k none none) proof.key
        (λ v. refl)
      ▸ carry_message "left" in_left refl existence_message (λ l. non_existence_known key l none)
          proof.left (λ v. refl) (IsNoneOr-imp existence-Returns proof.left h.left)
      ▸ carry_message "right" in_right refl existence_message
          (λ r. non_existence_known key proof.left r) proof.right (λ v. refl)
          (IsNoneOr-imp existence-Returns proof.right h.right)
      ▸ done

  pub non_existence-Returns :
      (proof : NonExistenceProof) → IsNonExistence proof → Returns non_existence_message proof
  unfolding serialize_non_existence_proof deserialize_non_existence_proof
  non_existence-Returns proof h =
      let (written, w, read) = CarriesAll-reads (non_existence-carried proof h) in
      (
        written,
        w,
        ap (Option.map non_existence_proof_of) read ∙ λ i. some (record {
          key = get_or-kept_bytes proof.key i;
          left = proof.left;
          right = proof.right;
        }),
      )
