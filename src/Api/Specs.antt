-- ===== src/Api/Specs.antt =====
-- The proof specs of rust/src/api.rs and the relaxed comparison with the IAVL spec.
use ics.Prelude.{◌≡◌, refl, Bool, true, false, ◌&&◌, Option, some, [], ◌∷◌, length, ◌==◌, replicate}
use ics.Prelude.Int.{pos, eqb_ℤ}
use ics.Proto.Enums.{hash_op_i32, length_op_i32, sha256, var_proto}
use ics.Proto.Types.{LeafOp, InnerSpec, ProofSpec}

abbrev pub iavl_leaf : LeafOp
iavl_leaf = record {
  hash = hash_op_i32 sha256;
  prehash_key = pos 0;
  prehash_value = hash_op_i32 sha256;
  length = length_op_i32 var_proto;
  prefix = 0 ∷ [];
}

abbrev pub iavl_inner : InnerSpec
iavl_inner = record {
  child_order = pos 0 ∷ pos 1 ∷ [];
  min_prefix_length = pos 4;
  max_prefix_length = pos 12;
  child_size = pos 33;
  empty_child = [];
  hash = hash_op_i32 sha256;
}

abbrev pub iavl_spec : ProofSpec
iavl_spec = record {
  leaf_spec = some iavl_leaf;
  inner_spec = some iavl_inner;
  min_depth = pos 0;
  max_depth = pos 0;
  prehash_key_before_comparison = false;
}

abbrev pub tendermint_leaf : LeafOp
tendermint_leaf = record {
  hash = hash_op_i32 sha256;
  prehash_key = pos 0;
  prehash_value = hash_op_i32 sha256;
  length = length_op_i32 var_proto;
  prefix = 0 ∷ [];
}

abbrev pub tendermint_inner : InnerSpec
tendermint_inner = record {
  child_order = pos 0 ∷ pos 1 ∷ [];
  min_prefix_length = pos 1;
  max_prefix_length = pos 1;
  child_size = pos 32;
  empty_child = [];
  hash = hash_op_i32 sha256;
}

abbrev pub tendermint_spec : ProofSpec
tendermint_spec = record {
  leaf_spec = some tendermint_leaf;
  inner_spec = some tendermint_inner;
  min_depth = pos 0;
  max_depth = pos 0;
  prehash_key_before_comparison = false;
}

abbrev pub smt_leaf : LeafOp
smt_leaf = record {
  hash = hash_op_i32 sha256;
  prehash_key = hash_op_i32 sha256;
  prehash_value = hash_op_i32 sha256;
  length = pos 0;
  prefix = 0 ∷ [];
}

abbrev pub smt_inner : InnerSpec
smt_inner = record {
  child_order = pos 0 ∷ pos 1 ∷ [];
  min_prefix_length = pos 1;
  max_prefix_length = pos 1;
  child_size = pos 32;
  empty_child = replicate 32 0;
  hash = hash_op_i32 sha256;
}

abbrev pub smt_spec : ProofSpec
smt_spec = record {
  leaf_spec = some smt_leaf;
  inner_spec = some smt_inner;
  min_depth = pos 0;
  max_depth = pos 0;
  prehash_key_before_comparison = true;
}

unfoldable pub leaf_spec_equals : LeafOp → LeafOp → Bool
leaf_spec_equals left right =
    eqb_ℤ left.hash right.hash
    && eqb_ℤ left.prehash_key right.prehash_key
    && eqb_ℤ left.prehash_value right.prehash_value
    && eqb_ℤ left.length right.length

unfoldable pub inner_spec_equals : InnerSpec → InnerSpec → Bool
inner_spec_equals left right =
    eqb_ℤ left.hash right.hash
    && eqb_ℤ left.min_prefix_length right.min_prefix_length
    && eqb_ℤ left.max_prefix_length right.max_prefix_length
    && eqb_ℤ left.child_size right.child_size
    && length left.child_order == length right.child_order

abbrev specs_equal : Option LeafOp → Option InnerSpec → Option LeafOp → Option InnerSpec → Bool
specs_equal (some leaf) (some inner) (some leaf') (some inner') =
    leaf_spec_equals leaf leaf' && inner_spec_equals inner inner'
specs_equal _ _ _ _ = false

unfoldable pub spec_equals : ProofSpec → ProofSpec → Bool
unfolding leaf_spec_equals inner_spec_equals
spec_equals left right = specs_equal left.leaf_spec left.inner_spec right.leaf_spec right.inner_spec

unfoldable pub is_iavl_spec : ProofSpec → Bool
unfolding spec_equals
is_iavl_spec spec = spec_equals spec iavl_spec

-- The two other specs that the crate ships are not taken for the IAVL spec.
pub is_iavl_spec_shipped :
    (is_iavl_spec iavl_spec ≡ true)
    × (is_iavl_spec tendermint_spec ≡ false)
    × (is_iavl_spec smt_spec ≡ false)
unfolding is_iavl_spec
is_iavl_spec_shipped = (refl, refl, refl)
