-- ===== src/Serde/Compressed/RoundTrip.antt =====
-- `CompressedExistenceProof` and `CompressedNonExistenceProof` of
-- rust/src/cosmos.ics23.v1.serde.rs, written and read.
use ics.Prelude.{refl, ap, ◌∙◌, Option, none, some, List, All}
use ics.Prelude.Bytes.{Bytes}
use ics.Prelude.Int.{ℤ, IsI32}
use ics.Proto.Prost.{Prost, ProstLaws}
use ics.Serde.Fields.{Pbjson, PbjsonLaws, kept_bytes, get_or-kept_bytes}
use ics.Serde.Messages.Laws.{Returns, IsNoneOr, IsNoneOr-imp, kept_list, get_or-kept_list}
use ics.Serde.Messages.Carries.{
  CarriesAll, CarriesAll-reads, done, ◌▸◌, carry_bytes, carry_message, carry_numbers,
}
use ics.Serde.LeafOps.{leaf_op_message}
use mathlib.Core.Option
use ics.Proto.Types.{LeafOp, CompressedExistenceProof, CompressedNonExistenceProof}
use ics.Serde.Proofs.RoundTrip.{IsLeafOp, leaf_op-Returns}
use ics.Serde.Compressed.{
  compressed_existence_field_of, compressed_existence_fields, serialize_compressed_existence,
  compressed_existence_part, no_compressed_existence_parts, compressed_existence_of,
  deserialize_compressed_existence, compressed_existence_message, CompressedExistenceParts,
  compressed_non_existence_field_of, compressed_non_existence_fields,
  serialize_compressed_non_existence, compressed_non_existence_part,
  no_compressed_non_existence_parts, compressed_non_existence_of,
  deserialize_compressed_non_existence, compressed_non_existence_message,
  CompressedNonExistenceParts, in_key, in_value, in_leaf, in_path, in_left, in_right,
}

-- The indices are i32 values, and the operations, if there are any, variants.
pub record IsCompressedExistence (proof : CompressedExistenceProof) : Type 0 where
  pub leaf : IsNoneOr IsLeafOp proof.leaf
  pub path : All IsI32 proof.path

pub record IsCompressedNonExistence (proof : CompressedNonExistenceProof) : Type 0 where
  pub left : IsNoneOr IsCompressedExistence proof.left
  pub right : IsNoneOr IsCompressedExistence proof.right

module _ ⦃prost : Prost⦄ ⦃pbjson : Pbjson⦄ (laws : ProstLaws prost)
    (base64 : PbjsonLaws pbjson) where
  abbrev compressed_existence_known :
      Option Bytes → Option Bytes → Option LeafOp → Option (List ℤ) → CompressedExistenceParts
  compressed_existence_known key' value' leaf' path' = record {
    key = key';
    value = value';
    leaf = leaf';
    path = path';
  }

  compressed_existence-carried :
      (proof : CompressedExistenceProof)
      → IsCompressedExistence proof
      → CarriesAll compressed_existence_field_of compressed_existence_part
          (compressed_existence_fields proof)
          no_compressed_existence_parts
          (compressed_existence_known
            (kept_bytes proof.key)
            (kept_bytes proof.value)
            proof.leaf
            (kept_list proof.path))
  unfolding compressed_existence_field_of compressed_existence_part
  compressed_existence-carried proof h =
      carry_bytes "key" in_key refl base64 (λ x. compressed_existence_known x none none none)
        proof.key (λ v. refl)
      ▸ carry_bytes "value" in_value refl base64
          (λ x. compressed_existence_known (kept_bytes proof.key) x none none) proof.value
          (λ v. refl)
      ▸ carry_message "leaf" in_leaf refl leaf_op_message
          (λ x. compressed_existence_known (kept_bytes proof.key) (kept_bytes proof.value) x none)
          proof.leaf (λ v. refl) (IsNoneOr-imp (leaf_op-Returns laws base64) proof.leaf h.leaf)
      ▸ carry_numbers "path" in_path refl base64
          (λ x.
            compressed_existence_known (kept_bytes proof.key) (kept_bytes proof.value) proof.leaf x)
          proof.path (λ v. refl) h.path
      ▸ done

  pub compressed_existence-Returns :
      (proof : CompressedExistenceProof)
      → IsCompressedExistence proof
      → Returns compressed_existence_message proof
  unfolding serialize_compressed_existence deserialize_compressed_existence
  compressed_existence-Returns proof h =
      let (written, w, read) = CarriesAll-reads (compressed_existence-carried proof h) in
      (
        written,
        w,
        ap (Option.map compressed_existence_of) read ∙ λ i. some (record {
          key = get_or-kept_bytes proof.key i;
          value = get_or-kept_bytes proof.value i;
          leaf = proof.leaf;
          path = get_or-kept_list proof.path i;
        }),
      )

  abbrev compressed_non_existence_known :
      Option Bytes
      → Option CompressedExistenceProof
      → Option CompressedExistenceProof
      → CompressedNonExistenceParts
  compressed_non_existence_known key' left' right' = record {
    key = key';
    left = left';
    right = right';
  }

  compressed_non_existence-carried :
      (proof : CompressedNonExistenceProof)
      → IsCompressedNonExistence proof
      → CarriesAll compressed_non_existence_field_of compressed_non_existence_part
          (compressed_non_existence_fields proof)
          no_compressed_non_existence_parts
          (compressed_non_existence_known (kept_bytes proof.key) proof.left proof.right)
  unfolding compressed_non_existence_field_of compressed_non_existence_part
  compressed_non_existence-carried proof h =
      carry_bytes "key" in_key refl base64 (λ x. compressed_non_existence_known x none none)
        proof.key (λ v. refl)
      ▸ carry_message "left" in_left refl compressed_existence_message
          (λ x. compressed_non_existence_known (kept_bytes proof.key) x none) proof.left (λ v. refl)
          (IsNoneOr-imp compressed_existence-Returns proof.left h.left)
      ▸ carry_message "right" in_right refl compressed_existence_message
          (λ x. compressed_non_existence_known (kept_bytes proof.key) proof.left x) proof.right
          (λ v. refl) (IsNoneOr-imp compressed_existence-Returns proof.right h.right)
      ▸ done

  pub compressed_non_existence-Returns :
      (proof : CompressedNonExistenceProof)
      → IsCompressedNonExistence proof
      → Returns compressed_non_existence_message proof
  unfolding serialize_compressed_non_existence deserialize_compressed_non_existence
  compressed_non_existence-Returns proof h =
      let (written, w, read) = CarriesAll-reads (compressed_non_existence-carried proof h) in
      (
        written,
        w,
        ap (Option.map compressed_non_existence_of) read ∙ λ i. some (record {
          key = get_or-kept_bytes proof.key i;
          left = proof.left;
          right = proof.right;
        }),
      )
