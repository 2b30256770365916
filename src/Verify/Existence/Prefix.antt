-- ===== src/Verify/Existence/Prefix.antt =====
-- What rust/src/verify.rs accepts if a leaf's prefix is longer than the spec's: the prefix may take in
-- the front of the framed key.
use ics.Prelude.{ℕ, ◌≡◌, refl, sym, ap, ◌∙◌, subst, false, inl, some, ◌++◌, is_empty, ◌∷◌, []}
use ics.Prelude.Bytes.{Bytes}
use ics.Prelude.Result.{ok, ok_inj}
use ics.Proto.Enums.{HashOp, LengthOp}
use ics.Proto.Types.{LeafOp, InnerSpec, ProofSpec, ExistenceProof}
use ics.Proto.Prost.{Prost}
use ics.Host.{HostFunctionsProvider}
use ics.Ops.{do_hash, do_length, prepare_leaf_data, apply_leaf}
use ics.Ops.Binding.{LeafParts, apply_leaf-LeafParts}
use ics.Api.Specs.{is_iavl_spec}
use ics.Verify.Shape.{IsSized}
use ics.Verify.Conformance.Laws.{IsSpecLeaf}
use ics.Verify.Conformance.Checked.{Conforms, check_existence_spec_iff}
use ics.Verify.Existence.{verify_existence}
use ics.Verify.Existence.Laws.{verify_existence_iff}
use mathlib.Core.List.{append_assoc}

module _ ⦃prost : Prost⦄ ⦃host : HostFunctionsProvider⦄ where
  prepare_leaf_data-of :
      (prehash : HashOp) (len : LengthOp) (message out : Bytes)
      → is_empty message ≡ false
      → do_length len (do_hash prehash message) ≡ ok out
      → prepare_leaf_data prehash len message ≡ ok out
  unfolding prepare_leaf_data
  prepare_leaf_data-of prehash len [] out h e = cc
  prepare_leaf_data-of prehash len (b ∷ bytes) out h e = e

  -- Parts that are put together make the leaf's hash.
  apply_leaf-of :
      (leaf : LeafOp) (key value out : Bytes) (p : LeafParts leaf key value out)
      → is_empty key ≡ false
      → is_empty value ≡ false
      → apply_leaf leaf key value ≡ ok out
  unfolding apply_leaf
  apply_leaf-of leaf key value out p k v =
      let len = prost.length_op leaf.length in
      rw
        (
          prepare_leaf_data-of (prost.hash_op leaf.prehash_key) len key p.prekey k p.key_length,
          prepare_leaf_data-of (prost.hash_op leaf.prehash_value) len value p.preval v
              p.value_length,
        )
        (ap ok (sym p.hashed))

  -- A leaf operation with a longer prefix.
  abbrev pub longer_leaf : LeafOp → Bytes → LeafOp
  longer_leaf leaf extra = record leaf { prefix = leaf.prefix ++ extra }

  -- A proof whose leaf's prefix takes in `extra`, for another key.
  abbrev pub shifted : ExistenceProof → LeafOp → Bytes → Bytes → ExistenceProof
  shifted proof leaf extra key = record proof { key = key; leaf = some (longer_leaf leaf extra) }

  longer_leaf-parts :
      (leaf : LeafOp) (extra old key framed value out : Bytes)
      → do_length (prost.length_op leaf.length) (do_hash (prost.hash_op leaf.prehash_key) key)
        ≡ ok framed
      → (p : LeafParts leaf old value out) → p.prekey ≡ extra ++ framed
      → LeafParts (longer_leaf leaf extra) key value out
  longer_leaf-parts leaf extra old key framed value out framing p e = record {
    prekey = framed;
    preval = p.preval;
    key_length = framing;
    value_length = p.value_length;
    hashed =
        p.hashed
        ∙ ap (λ t. do_hash (prost.hash_op leaf.hash) (t ++ p.preval))
            (ap (λ t. leaf.prefix ++ t) e ∙ sym (append_assoc leaf.prefix extra framed));
  }

  module _ (spec : ProofSpec) (leaf_spec : LeafOp) (inner_spec : InnerSpec) (n size min max : ℕ)
      (sized : IsSized inner_spec n size min max) (has_leaf : spec.leaf_spec ≡ some leaf_spec)
      (has_inner : spec.inner_spec ≡ some inner_spec) (other : is_iavl_spec spec ≡ false) where
    shifted-Conforms :
        (proof : ExistenceProof) (leaf : LeafOp) (extra key : Bytes)
        → proof.leaf ≡ some leaf
        → Conforms spec leaf_spec inner_spec n size min max proof
        → Conforms spec leaf_spec inner_spec n size min max (shifted proof leaf extra key)
    shifted-Conforms proof leaf extra key is_leaf c =
        let form : IsSpecLeaf leaf leaf_spec =
          subst (λ l. IsSpecLeaf l leaf_spec) (cc (c.has_leaf, is_leaf)) c.leaf_form in
        let (rest, begins) = form.prefix in
        record {
          leaf = longer_leaf leaf extra;
          has_leaf = refl;
          leaf_header = inl other;
          leaf_form = record {
            hash = form.hash;
            prehash_key = form.prehash_key;
            prehash_value = form.prehash_value;
            length_op = form.length_op;
            prefix = (
              rest ++ extra,
              ap (λ t. t ++ extra) begins ∙ append_assoc leaf_spec.prefix rest extra,
            );
          };
          depth = c.depth;
          steps = c.steps;
        }

    -- For a sized spec that is not the IAVL one, where `verify_existence` accepts a proof whose framed
    -- key ends with the framed form of another key that is not empty, it also accepts, under the same
    -- root, the same value for that other key, once the front of the framed key is moved into the prefix
    -- of the leaf operation.
    pub verify_existence_shifts :
        (proof : ExistenceProof) (leaf : LeafOp) (root extra key framed : Bytes)
        → proof.leaf ≡ some leaf
        → do_length
            (prost.length_op leaf.length)
            (do_hash (prost.hash_op leaf.prehash_key) proof.key)
          ≡ ok (extra ++ framed)
        → do_length (prost.length_op leaf.length) (do_hash (prost.hash_op leaf.prehash_key) key)
          ≡ ok framed
        → is_empty key ≡ false
        → verify_existence proof spec root proof.key proof.value ≡ ok tt
        → verify_existence (shifted proof leaf extra key) spec root key proof.value ≡ ok tt
    verify_existence_shifts proof leaf root extra key framed is_leaf whole rest filled e =
        let (checked, _, _, leads) =
          (verify_existence_iff proof spec root proof.key proof.value).0 e in
        let conforms =
          (check_existence_spec_iff spec leaf_spec inner_spec n size min max sized has_leaf
              has_inner proof).0
            checked in
        let hashed : apply_leaf leaf proof.key proof.value ≡ ok leads.hash =
          subst (λ o. apply_leaf o proof.key proof.value ≡ ok leads.hash)
            (cc (leads.has_leaf, is_leaf)) leads.leaf_hash in
        let parts = apply_leaf-LeafParts leaf proof.key proof.value leads.hash hashed in
        let prekey : parts.prekey ≡ extra ++ framed = ok_inj (sym parts.key_length ∙ whole) in
        (verify_existence_iff (shifted proof leaf extra key) spec root key proof.value).1 (
          (check_existence_spec_iff spec leaf_spec inner_spec n size min max sized has_leaf
                has_inner (shifted proof leaf extra key)).1
              (shifted-Conforms proof leaf extra key is_leaf conforms),
          refl,
          refl,
          record {
            leaf = longer_leaf leaf extra;
            has_leaf = refl;
            has_key = filled;
            has_value = leads.has_value;
            hash = leads.hash;
            leaf_hash =
                apply_leaf-of (longer_leaf leaf extra) key proof.value leads.hash
                  (longer_leaf-parts leaf extra proof.key key framed proof.value leads.hash rest
                    parts prekey)
                  filled leads.has_value;
            climbs = leads.climbs;
            fits = leads.fits;
          },
        )
