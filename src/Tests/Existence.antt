-- ===== src/Tests/Existence.antt =====
-- Examples for existence proofs.
use ics.Prelude.{
  length, replicate, ℕ, ◌<◌, ◌≤◌, ◌≡◌, ◌≢◌, refl, ◌⊎◌, inl, inr, Bool, true, false, Option, none,
  some, List, [], ◌∷◌, ◌++◌, reverse, length, arith, replicate,
}
use ics.Prelude.Bytes.{Bytes, bytes_lt}
use ics.Prelude.Int.{ℤ, pos}
use ics.Prelude.Result.{ok, panic}
use ics.Proto.Types.{ExistenceProof}
use ics.Proto.Enums.{var_proto}
use ics.Ops.{do_length}
use ics.Verify.Existence.Prefix.{shifted, verify_existence_shifts}
use ics.Api.Specs.{is_iavl_spec, tendermint_inner, tendermint_leaf, tendermint_spec}
use ics.Verify.Conformance.{check_existence_spec, ensure_leaf, ensure_inner_for}
use ics.Verify.Conformance.Laws.{leaf-ne-inner, ensure_inner_for_iff, IsSpecInner}
use ics.Verify.Conformance.Checked.{Conforms, check_existence_spec_iff}
use ics.Verify.Conformance.Depth.{with_max_depth, check_existence_spec-max_depth}
use ics.Verify.Existence.{
  verify_existence, calculate_existence_root, calculate_existence_root_for_spec,
}
use ics.Verify.Existence.Laws.{Leads, verify_existence_iff}
use ics.Verify.Existence.Safe.{verify_existence-ne-panic}
use ics.Verify.Padding.Order.{IsAt}
use ics.Verify.Existence.Position.{PairsCollide, verify_existence_binds_position}
use ics.Tests.{sample_prost, sample_host, sample_laws}
use ics.Tests.Samples.{
  tendermint_range, key_1, value_a, value_b, exist_1, exist_3, exist_5, left_step, node_b,
  hash_text, node_a, sample_root, tendermint_sized,
}
use ics.Tests.Runs.{accepts_1, checks_5}

verify_existence_iff_example :
    (check_existence_spec exist_1 tendermint_spec ≡ ok tt)
    × (exist_1.key ≡ 1 ∷ [])
    × (exist_1.value ≡ 1 ∷ 1 ∷ [])
    × Leads exist_1 (some tendermint_inner) sample_root
verify_existence_iff_example =
    (verify_existence_iff exist_1 tendermint_spec sample_root (1 ∷ []) (1 ∷ 1 ∷ [])).0 accepts_1

verify_existence-ne-panic_example :
    verify_existence exist_3 tendermint_spec sample_root (4 ∷ []) [] ≢ panic
verify_existence-ne-panic_example =
    verify_existence-ne-panic exist_3 tendermint_spec sample_root (4 ∷ []) [] tendermint_range

check_existence_spec_iff_example :
    Conforms tendermint_spec tendermint_leaf tendermint_inner 2 32 1 1 exist_5
check_existence_spec_iff_example =
    (check_existence_spec_iff tendermint_spec tendermint_leaf tendermint_inner 2 32 1 1
        tendermint_sized refl refl exist_5).0
      checks_5

check_existence_spec-max_depth_example :
    check_existence_spec exist_5 (with_max_depth tendermint_spec (pos 1))
    ≡ check_existence_spec exist_5 tendermint_spec
check_existence_spec-max_depth_example =
    check_existence_spec-max_depth tendermint_spec (pos 1) exist_5 refl

checks_leaf : ensure_leaf tendermint_leaf tendermint_leaf ≡ ok tt
unfolding ics.Prelude.Bytes.bytes_eq ics.Verify.Conformance.has_prefix
    ics.Verify.Conformance.ensure_leaf
checks_leaf = refl

checks_step : ensure_inner_for (left_step node_b) tendermint_leaf tendermint_inner ≡ ok tt
unfolding ics.Prelude.Bytes.bytes_eq ics.Prelude.Int.◌+ℤ◌ ics.Prelude.Int.◌*ℤ◌
    ics.Prelude.Int.wrap32 ics.Prelude.Int.as_usize ics.Prelude.Int.usize_sub
    ics.Verify.Conformance.has_prefix ics.Verify.Conformance.ensure_inner_for
checks_step = refl

ensure_inner_for_iff_example :
    IsSpecInner (left_step node_b) tendermint_leaf tendermint_inner 2 32 1 1
ensure_inner_for_iff_example =
    (ensure_inner_for_iff (left_step node_b) tendermint_leaf tendermint_inner tendermint_sized).0
      checks_step

leaf-ne-inner_example :
    tendermint_leaf.prefix ++ 7 ∷ []
    ≢ ((left_step node_b).prefix ++ node_a) ++ (left_step node_b).suffix
leaf-ne-inner_example =
    leaf-ne-inner tendermint_leaf tendermint_leaf (left_step node_b) tendermint_inner
      tendermint_sized (omega arith) checks_leaf checks_step (7 ∷ []) node_a

-- Two values with one hash.
abbrev with_value : Bytes → ExistenceProof
with_value value = record {
  key = 1 ∷ [];
  value = value;
  leaf = some tendermint_leaf;
  path = left_step node_b ∷ [];
}

abbrev shared_root : Bytes
shared_root = hash_text (1 ∷ hash_text (0 ∷ 1 ∷ 1 ∷ 32 ∷ hash_text value_a) ++ node_b)

leads_first :
    calculate_existence_root_for_spec (with_value value_a) (some tendermint_spec) ≡ ok shared_root
unfolding ics.Prelude.Int.as_usize ics.Tests.sample_prost ics.Tests.sample_host ics.Ops.do_hash
    ics.Ops.do_length ics.Ops.prepare_leaf_data ics.Ops.apply_leaf ics.Ops.apply_inner
    ics.Verify.Existence.check_child_size ics.Verify.Existence.apply_path
    ics.Verify.Existence.calculate_existence_root_for_spec
leads_first = refl

leads_second :
    calculate_existence_root_for_spec (with_value value_b) (some tendermint_spec) ≡ ok shared_root
unfolding ics.Prelude.Int.as_usize ics.Tests.sample_prost ics.Tests.sample_host ics.Ops.do_hash
    ics.Ops.do_length ics.Ops.prepare_leaf_data ics.Ops.apply_leaf ics.Ops.apply_inner
    ics.Verify.Existence.check_child_size ics.Verify.Existence.apply_path
    ics.Verify.Existence.calculate_existence_root_for_spec
leads_second = refl

-- Another right sibling with the hash of `node_b`'s side, and the value that shares its hash.
abbrev other_sibling : Bytes
other_sibling = 1 ∷ replicate 29 0 ++ 220 ∷ 43 ∷ []

abbrev with_sibling : ExistenceProof
with_sibling = record {
  key = key_1;
  value = value_b;
  leaf = some tendermint_leaf;
  path = left_step other_sibling ∷ [];
}

accepts_first :
    verify_existence (with_value value_a) tendermint_spec shared_root key_1 value_a ≡ ok tt
unfolding ics.Prelude.Bytes.bytes_eq ics.Prelude.Int.◌+ℤ◌ ics.Prelude.Int.◌*ℤ◌
    ics.Prelude.Int.wrap32 ics.Prelude.Int.as_usize ics.Prelude.Int.usize_sub ics.Tests.sample_prost
    ics.Tests.sample_host ics.Ops.do_hash ics.Ops.do_length ics.Ops.prepare_leaf_data
    ics.Ops.apply_leaf ics.Ops.apply_inner ics.Api.Specs.is_iavl_spec
    ics.Api.Prefix.ensure_leaf_prefix ics.Api.Prefix.ensure_inner_prefix
    ics.Verify.Conformance.has_prefix ics.Verify.Conformance.ensure_leaf
    ics.Verify.Conformance.ensure_inner_for ics.Verify.Conformance.ensure_inner
    ics.Verify.Conformance.ensure_depth ics.Verify.Conformance.ensure_steps
    ics.Verify.Conformance.check_existence_spec ics.Verify.Existence.check_child_size
    ics.Verify.Existence.apply_path ics.Verify.Existence.calculate_existence_root
    ics.Verify.Existence.verify_existence
accepts_first = refl

accepts_second : verify_existence with_sibling tendermint_spec shared_root key_1 value_b ≡ ok tt
unfolding ics.Prelude.Bytes.bytes_eq ics.Prelude.Int.◌+ℤ◌ ics.Prelude.Int.◌*ℤ◌
    ics.Prelude.Int.wrap32 ics.Prelude.Int.as_usize ics.Prelude.Int.usize_sub ics.Tests.sample_prost
    ics.Tests.sample_host ics.Ops.do_hash ics.Ops.do_length ics.Ops.prepare_leaf_data
    ics.Ops.apply_leaf ics.Ops.apply_inner ics.Api.Specs.is_iavl_spec
    ics.Api.Prefix.ensure_leaf_prefix ics.Api.Prefix.ensure_inner_prefix
    ics.Verify.Conformance.has_prefix ics.Verify.Conformance.ensure_leaf
    ics.Verify.Conformance.ensure_inner_for ics.Verify.Conformance.ensure_inner
    ics.Verify.Conformance.ensure_depth ics.Verify.Conformance.ensure_steps
    ics.Verify.Conformance.check_existence_spec ics.Verify.Existence.check_child_size
    ics.Verify.Existence.apply_path ics.Verify.Existence.calculate_existence_root
    ics.Verify.Existence.verify_existence
accepts_second = refl

left_step-IsAt : (right : Bytes) → length right ≡ 32 → IsAt 2 32 1 1 (left_step right) 0
left_step-IsAt right h = record {
  branch-lt = omega arith;
  prefix_low = omega arith;
  prefix_high = omega arith;
  suffix_rest = h;
}

verify_existence_binds_position_example :
    ((key_1 ≡ key_1) × (value_a ≡ value_b))
    ⊎ PairsCollide tendermint_leaf
        (left_step node_b ∷ [])
        (left_step other_sibling ∷ [])
        key_1
        value_a
        key_1
        value_b
unfolding ics.Tests.sample_prost ics.Tests.sample_host ics.Ops.do_hash
verify_existence_binds_position_example =
    verify_existence_binds_position 2 32 1 sample_laws (with_value value_a) with_sibling
      tendermint_spec tendermint_leaf shared_root key_1 value_a key_1 value_b refl refl
      ((refl, (0, left_step-IsAt node_b refl, left_step-IsAt other_sibling refl)), tt) tt
      (omega arith, omega arith) (omega arith, omega arith) accepts_first accepts_second

-- A leaf whose framed key ends with the framed key 97.
abbrev long_key : Bytes
long_key = 2 ∷ 1 ∷ 97 ∷ []

abbrev framed_value : Bytes
framed_value = 7 ∷ []

abbrev framed_root : Bytes
framed_root = hash_text (0 ∷ 3 ∷ 2 ∷ 1 ∷ 97 ∷ 32 ∷ hash_text framed_value)

abbrev framed_proof : ExistenceProof
framed_proof = record {
  key = long_key;
  value = framed_value;
  leaf = some tendermint_leaf;
  path = [];
}

accepts_framed :
    verify_existence framed_proof tendermint_spec framed_root long_key framed_value ≡ ok tt
unfolding ics.Prelude.Bytes.bytes_eq ics.Tests.sample_prost ics.Tests.sample_host ics.Ops.do_hash
    ics.Ops.do_length ics.Ops.prepare_leaf_data ics.Ops.apply_leaf ics.Api.Specs.is_iavl_spec
    ics.Api.Prefix.ensure_leaf_prefix ics.Verify.Conformance.has_prefix
    ics.Verify.Conformance.ensure_leaf ics.Verify.Conformance.ensure_depth
    ics.Verify.Conformance.ensure_steps ics.Verify.Conformance.check_existence_spec
    ics.Verify.Existence.apply_path ics.Verify.Existence.calculate_existence_root
    ics.Verify.Existence.verify_existence
accepts_framed = refl

frames_long : do_length var_proto long_key ≡ ok (3 ∷ 2 ∷ 1 ∷ 97 ∷ [])
unfolding ics.Tests.sample_prost ics.Ops.do_length
frames_long = refl

frames_short : do_length var_proto (97 ∷ []) ≡ ok (1 ∷ 97 ∷ [])
unfolding ics.Tests.sample_prost ics.Ops.do_length
frames_short = refl

tendermint_other : is_iavl_spec tendermint_spec ≡ false
unfolding ics.Api.Specs.is_iavl_spec
tendermint_other = refl

verify_existence_shifts_example :
    verify_existence
      (shifted framed_proof tendermint_leaf (3 ∷ 2 ∷ []) (97 ∷ []))
      tendermint_spec
      framed_root
      (97 ∷ [])
      framed_value
    ≡ ok tt
unfolding ics.Tests.sample_prost ics.Ops.do_hash
verify_existence_shifts_example =
    verify_existence_shifts tendermint_spec tendermint_leaf tendermint_inner 2 32 1 1
      tendermint_sized refl refl tendermint_other framed_proof tendermint_leaf framed_root
      (3 ∷ 2 ∷ []) (97 ∷ []) (1 ∷ 97 ∷ []) refl frames_long frames_short refl accepts_framed
