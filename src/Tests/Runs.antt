-- ===== src/Tests/Runs.antt =====
-- Runs on the sample tree, on which the examples rest.
use ics.Prelude.{◌≡◌, refl, Bool, true, false, Option, none, some, List, [], ◌∷◌}
use ics.Prelude.Bytes.{Bytes}
use ics.Prelude.Result.{ok}
use ics.Api.Specs.{tendermint_spec, tendermint_leaf, tendermint_inner}
use ics.Verify.Conformance.{check_existence_spec, ensure_leaf, ensure_inner_for}
use ics.Verify.Existence.{verify_existence, calculate_existence_root_for_spec}
use ics.Verify.Neighbor.{ensure_left_most, ensure_right_most, ensure_left_neighbor}
use ics.Verify.NonExistence.{verify_non_existence}
use ics.Verify.Padding.{order_from_padding, left_branches_are_empty, right_branches_are_empty}
use ics.Ops.{apply_leaf, apply_inner}
use ics.Membership.{
  verify_membership, verify_non_membership, verify_batch_membership, verify_batch_non_membership,
  get_exist_proof, get_nonexist_proof,
}
use ics.Tests.{sample_prost, sample_host}
use ics.Tests.Samples.{
  exist_1, exist_3, exist_5, exist_7, absent_4, batch_proof, sample_root, right_step, node_a,
}

pub accepts_1 : verify_existence exist_1 tendermint_spec sample_root (1 ∷ []) (1 ∷ 1 ∷ []) ≡ ok tt
unfolding ics.Prelude.Bytes.bytes_eq ics.Prelude.Int.◌+ℤ◌ ics.Prelude.Int.◌*ℤ◌
    ics.Prelude.Int.wrap32 ics.Prelude.Int.as_usize ics.Prelude.Int.usize_sub ics.Tests.sample_prost
    ics.Tests.sample_host ics.Ops.do_hash ics.Ops.do_length ics.Ops.prepare_leaf_data
    ics.Ops.apply_leaf ics.Ops.apply_inner ics.Api.Specs.is_iavl_spec
    ics.Api.Prefix.ensure_leaf_prefix ics.Api.Prefix.ensure_inner_prefix
    ics.Verify.Conformance.has_prefix ics.Verify.Conformance.ensure_leaf
    ics.Verify.Conformance.ensure_inner_for ics.Verify.Conformance.ensure_inner
    ics.Verify.Conformance.ensure_depth ics.Verify.Conformance.ensure_steps
    ics.Verify.Conformance.check_existence_spec ics.Verify.Existence.check_child_size
    ics.Verify.Existence.apply_path ics.Verify.Existence.calculate_existence_root
    ics.Verify.Existence.verify_existence
accepts_1 = refl

pub checks_5 : check_existence_spec exist_5 tendermint_spec ≡ ok tt
unfolding ics.Prelude.Bytes.bytes_eq ics.Prelude.Int.◌+ℤ◌ ics.Prelude.Int.◌*ℤ◌
    ics.Prelude.Int.wrap32 ics.Prelude.Int.as_usize ics.Prelude.Int.usize_sub
    ics.Api.Specs.is_iavl_spec ics.Api.Prefix.ensure_leaf_prefix ics.Api.Prefix.ensure_inner_prefix
    ics.Verify.Conformance.has_prefix ics.Verify.Conformance.ensure_leaf
    ics.Verify.Conformance.ensure_inner_for ics.Verify.Conformance.ensure_inner
    ics.Verify.Conformance.ensure_depth ics.Verify.Conformance.ensure_steps
    ics.Verify.Conformance.check_existence_spec
checks_5 = refl

pub accepts_absent_4 : verify_non_existence absent_4 tendermint_spec sample_root (4 ∷ []) ≡ ok tt
unfolding ics.Prelude.Bytes.bytes_eq ics.Prelude.Bytes.bytes_lt ics.Prelude.Int.◌+ℤ◌
    ics.Prelude.Int.◌*ℤ◌ ics.Prelude.Int.wrap32 ics.Prelude.Int.as_usize ics.Prelude.Int.usize_sub
    ics.Prelude.Int.usize_mul ics.Tests.sample_prost ics.Tests.sample_host ics.Ops.do_hash
    ics.Ops.do_length ics.Ops.prepare_leaf_data ics.Ops.apply_leaf ics.Ops.apply_inner
    ics.Api.Specs.is_iavl_spec ics.Api.Prefix.ensure_leaf_prefix ics.Api.Prefix.ensure_inner_prefix
    ics.Verify.Padding.has_padding ics.Verify.Padding.get_padding
    ics.Verify.Padding.order_from_padding ics.Verify.Conformance.has_prefix
    ics.Verify.Conformance.ensure_leaf ics.Verify.Conformance.ensure_inner_for
    ics.Verify.Conformance.ensure_inner ics.Verify.Conformance.ensure_depth
    ics.Verify.Conformance.ensure_steps ics.Verify.Conformance.check_existence_spec
    ics.Verify.Existence.check_child_size ics.Verify.Existence.apply_path
    ics.Verify.Existence.calculate_existence_root ics.Verify.Existence.verify_existence
    ics.Verify.Neighbor.ensure_each_step ics.Verify.Neighbor.ensure_left_most
    ics.Verify.Neighbor.ensure_right_most ics.Verify.Neighbor.is_left_step
    ics.Verify.Neighbor.diverge ics.Verify.Neighbor.ensure_left_neighbor
    ics.Verify.NonExistence.check_neighbors ics.Verify.NonExistence.key_for_comparison
    ics.Verify.NonExistence.check_left ics.Verify.NonExistence.check_right
    ics.Verify.NonExistence.verify_non_existence
accepts_absent_4 = refl

pub neighbors_3_5 : ensure_left_neighbor tendermint_inner exist_3.path exist_5.path ≡ ok tt
unfolding ics.Prelude.Bytes.bytes_eq ics.Prelude.Int.◌+ℤ◌ ics.Prelude.Int.◌*ℤ◌
    ics.Prelude.Int.wrap32 ics.Prelude.Int.as_usize ics.Prelude.Int.usize_sub
    ics.Prelude.Int.usize_mul ics.Verify.Padding.has_padding ics.Verify.Padding.get_padding
    ics.Verify.Padding.order_from_padding ics.Verify.Neighbor.ensure_each_step
    ics.Verify.Neighbor.ensure_left_most ics.Verify.Neighbor.ensure_right_most
    ics.Verify.Neighbor.is_left_step ics.Verify.Neighbor.diverge
    ics.Verify.Neighbor.ensure_left_neighbor
neighbors_3_5 = refl

pub first_is_1 : ensure_left_most tendermint_inner exist_1.path ≡ ok tt
unfolding ics.Prelude.Int.◌+ℤ◌ ics.Prelude.Int.◌*ℤ◌ ics.Prelude.Int.wrap32 ics.Prelude.Int.as_usize
    ics.Prelude.Int.usize_sub ics.Prelude.Int.usize_mul ics.Verify.Padding.has_padding
    ics.Verify.Padding.get_padding ics.Verify.Neighbor.ensure_each_step
    ics.Verify.Neighbor.ensure_left_most
first_is_1 = refl

pub last_is_7 : ensure_right_most tendermint_inner exist_7.path ≡ ok tt
unfolding ics.Prelude.Int.◌+ℤ◌ ics.Prelude.Int.◌*ℤ◌ ics.Prelude.Int.wrap32 ics.Prelude.Int.as_usize
    ics.Prelude.Int.usize_sub ics.Prelude.Int.usize_mul ics.Verify.Padding.has_padding
    ics.Verify.Padding.get_padding ics.Verify.Neighbor.ensure_each_step
    ics.Verify.Neighbor.ensure_right_most
last_is_7 = refl

pub at_branch_1 :
    order_from_padding tendermint_inner (right_step node_a) ≡ ok (ics.Prelude.Int.pos 1)
unfolding ics.Prelude.Int.◌+ℤ◌ ics.Prelude.Int.◌*ℤ◌ ics.Prelude.Int.wrap32 ics.Prelude.Int.as_usize
    ics.Prelude.Int.usize_sub ics.Prelude.Int.usize_mul ics.Verify.Padding.has_padding
    ics.Verify.Padding.get_padding ics.Verify.Padding.order_from_padding
at_branch_1 = refl

pub member_1 :
    verify_membership batch_proof tendermint_spec sample_root (1 ∷ []) (1 ∷ 1 ∷ []) ≡ ok true
unfolding ics.Prelude.Bytes.bytes_eq ics.Prelude.Int.◌+ℤ◌ ics.Prelude.Int.◌*ℤ◌
    ics.Prelude.Int.wrap32 ics.Prelude.Int.as_usize ics.Prelude.Int.usize_sub ics.Tests.sample_prost
    ics.Tests.sample_host ics.Ops.do_hash ics.Ops.do_length ics.Ops.prepare_leaf_data
    ics.Ops.apply_leaf ics.Ops.apply_inner ics.Api.Specs.is_iavl_spec
    ics.Api.Prefix.ensure_leaf_prefix ics.Api.Prefix.ensure_inner_prefix
    ics.Verify.Conformance.has_prefix ics.Verify.Conformance.ensure_leaf
    ics.Verify.Conformance.ensure_inner_for ics.Verify.Conformance.ensure_inner
    ics.Verify.Conformance.ensure_depth ics.Verify.Conformance.ensure_steps
    ics.Verify.Conformance.check_existence_spec ics.Verify.Existence.check_child_size
    ics.Verify.Existence.apply_path ics.Verify.Existence.calculate_existence_root
    ics.Verify.Existence.verify_existence ics.Compress.is_compressed ics.Membership.get_exist_proof
    ics.Membership.verify_membership
member_1 = refl

pub no_member_4 : verify_non_membership batch_proof tendermint_spec sample_root (4 ∷ []) ≡ ok true
unfolding ics.Prelude.Bytes.bytes_eq ics.Prelude.Bytes.bytes_lt ics.Prelude.Int.◌+ℤ◌
    ics.Prelude.Int.◌*ℤ◌ ics.Prelude.Int.wrap32 ics.Prelude.Int.as_usize ics.Prelude.Int.usize_sub
    ics.Prelude.Int.usize_mul ics.Tests.sample_prost ics.Tests.sample_host ics.Ops.do_hash
    ics.Ops.do_length ics.Ops.prepare_leaf_data ics.Ops.apply_leaf ics.Ops.apply_inner
    ics.Api.Specs.is_iavl_spec ics.Api.Prefix.ensure_leaf_prefix ics.Api.Prefix.ensure_inner_prefix
    ics.Verify.Padding.has_padding ics.Verify.Padding.get_padding
    ics.Verify.Padding.order_from_padding ics.Verify.Conformance.has_prefix
    ics.Verify.Conformance.ensure_leaf ics.Verify.Conformance.ensure_inner_for
    ics.Verify.Conformance.ensure_inner ics.Verify.Conformance.ensure_depth
    ics.Verify.Conformance.ensure_steps ics.Verify.Conformance.check_existence_spec
    ics.Verify.Existence.check_child_size ics.Verify.Existence.apply_path
    ics.Verify.Existence.calculate_existence_root ics.Verify.Existence.verify_existence
    ics.Verify.Neighbor.ensure_each_step ics.Verify.Neighbor.ensure_left_most
    ics.Verify.Neighbor.ensure_right_most ics.Verify.Neighbor.is_left_step
    ics.Verify.Neighbor.diverge ics.Verify.Neighbor.ensure_left_neighbor
    ics.Verify.NonExistence.check_neighbors ics.Verify.NonExistence.key_for_comparison
    ics.Verify.NonExistence.check_left ics.Verify.NonExistence.check_right
    ics.Verify.NonExistence.verify_non_existence ics.Compress.is_compressed ics.Membership.encloses
    ics.Membership.get_nonexist_proof ics.Membership.verify_non_membership
no_member_4 = refl

pub members_1_5 :
    verify_batch_membership batch_proof tendermint_spec sample_root
      ((1 ∷ [], 1 ∷ 1 ∷ []) ∷ (5 ∷ [], 5 ∷ 5 ∷ []) ∷ [])
    ≡ ok true
unfolding ics.Prelude.Bytes.bytes_eq ics.Prelude.Int.◌+ℤ◌ ics.Prelude.Int.◌*ℤ◌
    ics.Prelude.Int.wrap32 ics.Prelude.Int.as_usize ics.Prelude.Int.usize_sub ics.Tests.sample_prost
    ics.Tests.sample_host ics.Ops.do_hash ics.Ops.do_length ics.Ops.prepare_leaf_data
    ics.Ops.apply_leaf ics.Ops.apply_inner ics.Api.Specs.is_iavl_spec
    ics.Api.Prefix.ensure_leaf_prefix ics.Api.Prefix.ensure_inner_prefix
    ics.Verify.Conformance.has_prefix ics.Verify.Conformance.ensure_leaf
    ics.Verify.Conformance.ensure_inner_for ics.Verify.Conformance.ensure_inner
    ics.Verify.Conformance.ensure_depth ics.Verify.Conformance.ensure_steps
    ics.Verify.Conformance.check_existence_spec ics.Verify.Existence.check_child_size
    ics.Verify.Existence.apply_path ics.Verify.Existence.calculate_existence_root
    ics.Verify.Existence.verify_existence ics.Compress.is_compressed ics.Membership.get_exist_proof
    ics.Membership.verify_membership ics.Membership.verify_batch_membership
members_1_5 = refl

pub no_members_4 :
    verify_batch_non_membership batch_proof tendermint_spec sample_root ((4 ∷ []) ∷ []) ≡ ok true
unfolding ics.Prelude.Bytes.bytes_eq ics.Prelude.Bytes.bytes_lt ics.Prelude.Int.◌+ℤ◌
    ics.Prelude.Int.◌*ℤ◌ ics.Prelude.Int.wrap32 ics.Prelude.Int.as_usize ics.Prelude.Int.usize_sub
    ics.Prelude.Int.usize_mul ics.Tests.sample_prost ics.Tests.sample_host ics.Ops.do_hash
    ics.Ops.do_length ics.Ops.prepare_leaf_data ics.Ops.apply_leaf ics.Ops.apply_inner
    ics.Api.Specs.is_iavl_spec ics.Api.Prefix.ensure_leaf_prefix ics.Api.Prefix.ensure_inner_prefix
    ics.Verify.Padding.has_padding ics.Verify.Padding.get_padding
    ics.Verify.Padding.order_from_padding ics.Verify.Conformance.has_prefix
    ics.Verify.Conformance.ensure_leaf ics.Verify.Conformance.ensure_inner_for
    ics.Verify.Conformance.ensure_inner ics.Verify.Conformance.ensure_depth
    ics.Verify.Conformance.ensure_steps ics.Verify.Conformance.check_existence_spec
    ics.Verify.Existence.check_child_size ics.Verify.Existence.apply_path
    ics.Verify.Existence.calculate_existence_root ics.Verify.Existence.verify_existence
    ics.Verify.Neighbor.ensure_each_step ics.Verify.Neighbor.ensure_left_most
    ics.Verify.Neighbor.ensure_right_most ics.Verify.Neighbor.is_left_step
    ics.Verify.Neighbor.diverge ics.Verify.Neighbor.ensure_left_neighbor
    ics.Verify.NonExistence.check_neighbors ics.Verify.NonExistence.key_for_comparison
    ics.Verify.NonExistence.check_left ics.Verify.NonExistence.check_right
    ics.Verify.NonExistence.verify_non_existence ics.Compress.is_compressed ics.Membership.encloses
    ics.Membership.get_nonexist_proof ics.Membership.verify_non_membership
    ics.Membership.verify_batch_non_membership
no_members_4 = refl

pub found_5 : get_exist_proof batch_proof (5 ∷ []) ≡ some exist_5
unfolding ics.Prelude.Bytes.bytes_eq ics.Membership.get_exist_proof
found_5 = refl

pub found_4 : get_nonexist_proof batch_proof (4 ∷ []) tendermint_spec ≡ some absent_4
unfolding ics.Prelude.Bytes.bytes_lt ics.Membership.encloses ics.Membership.get_nonexist_proof
found_4 = refl
