-- ===== src/Verify/NonExistence/Compared.antt =====
-- The form in which rust/src/verify.rs and rust/src/api.rs compare two keys, described without their
-- functions.
use ics.Prelude.{◌≡◌, refl, ap, ◌↔◌, Bool, true, false, Option, none, some, subst}
use ics.Prelude.Bytes.{Bytes, bytes_lt}
use ics.Prelude.Int.{pos}
use ics.Proto.Enums.{HashOp}
use ics.Proto.Types.{LeafOp, ProofSpec}
use ics.Proto.Prost.{Prost}
use ics.Host.{HostFunctionsProvider}
use ics.Ops.{do_hash}
use ics.Verify.NonExistence.{comparison_key, key_for_comparison}

module _ ⦃prost : Prost⦄ ⦃host : HostFunctionsProvider⦄ (default : HashOp) (spec : ProofSpec) where
  -- A key is compared as it is, unless the spec asks for its hash: by the leaf spec's prehash of keys,
  -- or by the default where there is no leaf spec.
  pub data ComparesAs (key : Bytes) : Bytes → Type 0 where
    as_given : spec.prehash_key_before_comparison ≡ false → ComparesAs key key
    as_hashed :
        {leaf : LeafOp}
        → spec.prehash_key_before_comparison ≡ true
        → spec.leaf_spec ≡ some leaf
        → ComparesAs key (do_hash (prost.hash_op leaf.prehash_key) key)
    as_default :
        spec.prehash_key_before_comparison ≡ true
        → spec.leaf_spec ≡ none
        → ComparesAs key (do_hash default key)

  -- The one key is before the other, strictly, in the order of what they are compared as.
  abbrev pub Precedes : Bytes → Bytes → Type 0
  Precedes a b = (x : Bytes) × (y : Bytes) × ComparesAs a x × ComparesAs b y × (bytes_lt x y ≡ true)

  ComparesAs-unique : {key x y : Bytes} → ComparesAs key x → ComparesAs key y → x ≡ y
  ComparesAs-unique (as_given raw) (as_given raw') = refl
  ComparesAs-unique (as_given raw) (as_hashed pre l) = absurd (cc)
  ComparesAs-unique (as_given raw) (as_default pre l) = absurd (cc)
  ComparesAs-unique (as_hashed pre l) (as_given raw) = absurd (cc)
  ComparesAs-unique {key = key} (as_hashed {leaf = leaf} pre l) (as_hashed {leaf = leaf'} pre' l') =
      let same : leaf ≡ leaf' = cc in ap (λ op. do_hash (prost.hash_op op.prehash_key) key) same
  ComparesAs-unique (as_hashed pre l) (as_default pre' l') = absurd (cc)
  ComparesAs-unique (as_default pre l) (as_given raw) = absurd (cc)
  ComparesAs-unique (as_default pre l) (as_hashed pre' l') = absurd (cc)
  ComparesAs-unique (as_default pre l) (as_default pre' l') = refl

  -- A function that computes what keys are compared as decides the order.
  pub Precedes-iff :
      (form : Bytes → Bytes)
      → ((key : Bytes) → ComparesAs key (form key))
      → (a b : Bytes) → Precedes a b ↔ (bytes_lt (form a) (form b) ≡ true)
  Precedes-iff form is_form a b = (
    λ (x, y, p, q, less).
        subst (λ u. bytes_lt u (form b) ≡ true) (ComparesAs-unique p (is_form a))
          (subst (λ v. bytes_lt x v ≡ true) (ComparesAs-unique q (is_form b)) less),
    λ less. (form a, form b, is_form a, is_form b, less),
  )

module _ ⦃prost : Prost⦄ ⦃host : HostFunctionsProvider⦄ (spec : ProofSpec) where
  key_for_comparison-ComparesAs :
      (key : Bytes) → ComparesAs (prost.hash_op (pos 0)) spec key (key_for_comparison spec key)
  unfolding key_for_comparison
  key_for_comparison-ComparesAs key = go spec.prehash_key_before_comparison spec.leaf_spec refl refl
    where
      go :
          (pre : Bool) (leaf : Option LeafOp)
          → spec.prehash_key_before_comparison ≡ pre
          → spec.leaf_spec ≡ leaf
          → ComparesAs (prost.hash_op (pos 0)) spec key (comparison_key pre leaf key)
      go false leaf p l = as_given p
      go true none p l = as_default p l
      go true (some leaf) p l = as_hashed p l

  -- In `verify_non_existence` the default is the operation of the discriminant 0.
  abbrev pub IsSmaller : Bytes → Bytes → Type 0
  IsSmaller = Precedes (prost.hash_op (pos 0)) spec

  pub IsSmaller-iff :
      (a b : Bytes)
      → IsSmaller a b ↔ (bytes_lt (key_for_comparison spec a) (key_for_comparison spec b) ≡ true)
  IsSmaller-iff =
      Precedes-iff (prost.hash_op (pos 0)) spec (key_for_comparison spec)
        key_for_comparison-ComparesAs
