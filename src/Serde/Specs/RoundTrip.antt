-- ===== src/Serde/Specs/RoundTrip.antt =====
-- `InnerSpec` and `ProofSpec` of rust/src/cosmos.ics23.v1.serde.rs, written and read.
use ics.Prelude.{◌≡◌, refl, ap, ◌∙◌, Bool, Option, none, some, List, All}
use ics.Prelude.Bytes.{Bytes}
use ics.Prelude.Int.{ℤ, IsI32}
use ics.Proto.Prost.{Prost, ProstLaws}
use ics.Serde.Fields.{
  Pbjson, PbjsonLaws, kept_bytes, kept_enum, get_or-kept_bytes, get_or-kept_enum,
}
use ics.Serde.Messages.Laws.{
  Returns, IsNoneOr, IsNoneOr-imp, kept_list, get_or-kept_list, kept_true, get_or-kept_true,
}
use ics.Serde.Messages.Carries.{
  CarriesAll, CarriesAll-reads, done, ◌▸◌, carry_bytes, carry_message, carry_number, carry_numbers,
  carry_hash, carry_boolean,
}
use ics.Serde.LeafOps.{leaf_op_message}
use mathlib.Core.Option
use ics.Proto.Types.{LeafOp, InnerSpec, ProofSpec}
use ics.Serde.Proofs.RoundTrip.{IsHash, IsLeafOp, leaf_op-Returns}
use ics.Serde.Specs.{
  inner_spec_field_of, inner_spec_fields, serialize_inner_spec, inner_spec_part,
  no_inner_spec_parts, inner_spec_of_parts, deserialize_inner_spec, inner_spec_message,
  InnerSpecParts, proof_spec_field_of, proof_spec_fields, serialize_proof_spec, proof_spec_part,
  no_proof_spec_parts, proof_spec_of_parts, deserialize_proof_spec, proof_spec_message,
  ProofSpecParts, in_child_order, in_child_size, in_min_prefix_length, in_max_prefix_length,
  in_empty_child, in_hash, in_leaf_spec, in_inner_spec, in_max_depth, in_min_depth,
  in_prehash_key_before_comparison,
}
use ics.Serde.Enums.{and_then}
use ics.Serde.Messages.Laws.{back-and_then}

-- Numbers that an i32 holds, and enumeration fields that hold variants.
pub record IsInnerSpec (spec : InnerSpec) : Type 0 where
  pub child_order : All IsI32 spec.child_order
  pub child_size : IsI32 spec.child_size
  pub min_prefix_length : IsI32 spec.min_prefix_length
  pub max_prefix_length : IsI32 spec.max_prefix_length
  pub hash : IsHash spec.hash

pub record IsProofSpec (spec : ProofSpec) : Type 0 where
  pub leaf_spec : IsNoneOr IsLeafOp spec.leaf_spec
  pub inner_spec : IsNoneOr IsInnerSpec spec.inner_spec
  pub max_depth : IsI32 spec.max_depth
  pub min_depth : IsI32 spec.min_depth

module _ ⦃prost : Prost⦄ ⦃pbjson : Pbjson⦄ (laws : ProstLaws prost)
    (base64 : PbjsonLaws pbjson) where
  abbrev inner_spec_known :
      Option (List ℤ) → Option ℤ → Option ℤ → Option ℤ → Option Bytes → Option ℤ → InnerSpecParts
  inner_spec_known child_order' child_size' min_prefix_length' max_prefix_length' empty_child'
        hash' =
      record {
        child_order = child_order';
        child_size = child_size';
        min_prefix_length = min_prefix_length';
        max_prefix_length = max_prefix_length';
        empty_child = empty_child';
        hash = hash';
      }

  inner_spec-carried :
      (spec : InnerSpec)
      → IsInnerSpec spec
      → CarriesAll inner_spec_field_of inner_spec_part
          (inner_spec_fields spec)
          no_inner_spec_parts
          (inner_spec_known
            (kept_list spec.child_order)
            (kept_enum spec.child_size)
            (kept_enum spec.min_prefix_length)
            (kept_enum spec.max_prefix_length)
            (kept_bytes spec.empty_child)
            (kept_enum spec.hash))
  unfolding inner_spec_field_of inner_spec_part
  inner_spec-carried spec h =
      carry_numbers "childOrder" in_child_order refl base64
        (λ x. inner_spec_known x none none none none none) spec.child_order (λ v. refl)
        h.child_order
      ▸ carry_number "childSize" in_child_size refl base64
          (λ x. inner_spec_known (kept_list spec.child_order) x none none none none) spec.child_size
          (λ v. refl) h.child_size
      ▸ carry_number "minPrefixLength" in_min_prefix_length refl base64
          (λ x.
            inner_spec_known (kept_list spec.child_order) (kept_enum spec.child_size) x none none
              none)
          spec.min_prefix_length (λ v. refl) h.min_prefix_length
      ▸ carry_number "maxPrefixLength" in_max_prefix_length refl base64
          (λ x.
            inner_spec_known (kept_list spec.child_order) (kept_enum spec.child_size)
              (kept_enum spec.min_prefix_length) x none none)
          spec.max_prefix_length (λ v. refl) h.max_prefix_length
      ▸ carry_bytes "emptyChild" in_empty_child refl base64
          (λ x.
            inner_spec_known (kept_list spec.child_order) (kept_enum spec.child_size)
              (kept_enum spec.min_prefix_length) (kept_enum spec.max_prefix_length) x none)
          spec.empty_child (λ v. refl)
      ▸ carry_hash "hash" in_hash refl laws
          (λ x.
            inner_spec_known (kept_list spec.child_order) (kept_enum spec.child_size)
              (kept_enum spec.min_prefix_length) (kept_enum spec.max_prefix_length)
              (kept_bytes spec.empty_child) x)
          spec.hash h.hash.0 (λ v. refl) h.hash.1
      ▸ done

  pub inner_spec-Returns : (spec : InnerSpec) → IsInnerSpec spec → Returns inner_spec_message spec
  unfolding serialize_inner_spec deserialize_inner_spec
  inner_spec-Returns spec h =
      let (written, w, read) = CarriesAll-reads (inner_spec-carried spec h) in
      (
        written,
        w,
        ap (Option.map inner_spec_of_parts) read ∙ λ i. some (record {
          child_order = get_or-kept_list spec.child_order i;
          child_size = get_or-kept_enum spec.child_size i;
          min_prefix_length = get_or-kept_enum spec.min_prefix_length i;
          max_prefix_length = get_or-kept_enum spec.max_prefix_length i;
          empty_child = get_or-kept_bytes spec.empty_child i;
          hash = get_or-kept_enum spec.hash i;
        }),
      )

  abbrev proof_spec_known :
      Option LeafOp → Option InnerSpec → Option ℤ → Option ℤ → Option Bool → ProofSpecParts
  proof_spec_known leaf_spec' inner_spec' max_depth' min_depth' prehash_key_before_comparison' =
      record {
        leaf_spec = leaf_spec';
        inner_spec = inner_spec';
        max_depth = max_depth';
        min_depth = min_depth';
        prehash_key_before_comparison = prehash_key_before_comparison';
      }

  proof_spec-carried :
      (spec : ProofSpec)
      → IsProofSpec spec
      → CarriesAll proof_spec_field_of proof_spec_part
          (proof_spec_fields spec)
          no_proof_spec_parts
          (proof_spec_known spec.leaf_spec spec.inner_spec
            (kept_enum spec.max_depth)
            (kept_enum spec.min_depth)
            (kept_true spec.prehash_key_before_comparison))
  unfolding proof_spec_field_of proof_spec_part
  proof_spec-carried spec h =
      carry_message "leafSpec" in_leaf_spec refl leaf_op_message
        (λ x. proof_spec_known x none none none none) spec.leaf_spec (λ v. refl)
        (IsNoneOr-imp (leaf_op-Returns laws base64) spec.leaf_spec h.leaf_spec)
      ▸ carry_message "innerSpec" in_inner_spec refl inner_spec_message
          (λ x. proof_spec_known spec.leaf_spec x none none none) spec.inner_spec (λ v. refl)
          (IsNoneOr-imp inner_spec-Returns spec.inner_spec h.inner_spec)
      ▸ carry_number "maxDepth" in_max_depth refl base64
          (λ x. proof_spec_known spec.leaf_spec spec.inner_spec x none none) spec.max_depth
          (λ v. refl) h.max_depth
      ▸ carry_number "minDepth" in_min_depth refl base64
          (λ x. proof_spec_known spec.leaf_spec spec.inner_spec (kept_enum spec.max_depth) x none)
          spec.min_depth (λ v. refl) h.min_depth
      ▸ carry_boolean "prehashKeyBeforeComparison" in_prehash_key_before_comparison refl
          (λ x.
            proof_spec_known spec.leaf_spec spec.inner_spec (kept_enum spec.max_depth)
              (kept_enum spec.min_depth) x)
          spec.prehash_key_before_comparison (λ v. refl)
      ▸ done

  pub proof_spec-Returns : (spec : ProofSpec) → IsProofSpec spec → Returns proof_spec_message spec
  unfolding serialize_proof_spec deserialize_proof_spec
  proof_spec-Returns spec h =
      let (written, w, read) = CarriesAll-reads (proof_spec-carried spec h) in
      (
        written,
        w,
        ap (Option.map proof_spec_of_parts) read ∙ λ i. some (record {
          leaf_spec = spec.leaf_spec;
          inner_spec = spec.inner_spec;
          max_depth = get_or-kept_enum spec.max_depth i;
          min_depth = get_or-kept_enum spec.min_depth i;
          prehash_key_before_comparison = get_or-kept_true spec.prehash_key_before_comparison i;
        }),
      )

  -- A serialized `ProofSpec` whose numbers are i32 values and whose operations, if it has any, are
  -- variants is read back as it was.
  pub deserialize-serialize_proof_spec :
      (spec : ProofSpec)
      → IsProofSpec spec
      → and_then (serialize_proof_spec spec) deserialize_proof_spec ≡ some spec
  deserialize-serialize_proof_spec spec h =
      back-and_then (serialize_proof_spec spec) deserialize_proof_spec (proof_spec-Returns spec h)
