-- ===== src/Tests/Absence.antt =====
-- Examples for non-existence proofs.
use ics.Prelude.{
  length, replicate, ℕ, ◌<◌, ◌≤◌, ◌≡◌, ◌≢◌, refl, ◌⊎◌, inl, inr, Bool, true, false, Option, none,
  some, List, [], ◌∷◌, ◌++◌, reverse, length, arith, replicate,
}
use ics.Prelude.Bytes.{Bytes, bytes_lt}
use ics.Prelude.Result.{panic}
use ics.Proto.Types.{ExistenceProof, NonExistenceProof}
use ics.Api.Specs.{tendermint_inner, tendermint_leaf, tendermint_spec}
use ics.Verify.Conformance.{check_existence_spec, ensure_leaf, ensure_inner_for}
use ics.Verify.Existence.{
  verify_existence, calculate_existence_root, calculate_existence_root_for_spec,
}
use ics.Verify.Neighbor.Fork.{left_ends}
use ics.Verify.NonExistence.{verify_non_existence}
use ics.Verify.NonExistence.Compared.{IsSmaller, as_given}
use ics.Verify.NonExistence.Laws.{
  LeftBelow, RightAbove, IsGap, verify_non_existence_iff, verify_non_existence_separates,
  verify_non_existence_panics_iff,
}
use ics.Tests.{sample_prost, sample_host, sample_laws}
use ics.Tests.Samples.{
  key_1, exist_3, exist_5, absent_4, leaf_hash, sample_root, tendermint_sized, tendermint_branches,
}
use ics.Tests.Runs.{accepts_absent_4}

verify_non_existence_iff_example :
    LeftBelow (some exist_3) tendermint_spec sample_root (4 ∷ [])
    × RightAbove (some exist_5) tendermint_spec sample_root (4 ∷ [])
    × IsGap tendermint_sized tendermint_branches (some exist_3) (some exist_5)
verify_non_existence_iff_example =
    (verify_non_existence_iff tendermint_sized tendermint_branches absent_4 tendermint_spec
        sample_root (4 ∷ []) refl).0
      accepts_absent_4

verify_non_existence_separates_example :
    IsSmaller tendermint_spec exist_3.key (4 ∷ [])
    × IsSmaller tendermint_spec (4 ∷ []) exist_5.key
    × IsSmaller tendermint_spec exist_3.key exist_5.key
    × (exist_3.key ≢ 4 ∷ [])
    × (exist_5.key ≢ 4 ∷ [])
    × (exist_3.key ≢ exist_5.key)
verify_non_existence_separates_example =
    verify_non_existence_separates absent_4 tendermint_spec sample_root (4 ∷ []) exist_3 exist_5
      accepts_absent_4 refl refl

-- Two leaves with one hash, which is the root: neither path has a step.
abbrev root_leaf : Bytes → Bytes → ExistenceProof
root_leaf key value = record { key = key; value = value; leaf = some tendermint_leaf; path = [] }

abbrev leaf_root : Bytes
leaf_root = leaf_hash 1

abbrev stuck : NonExistenceProof
stuck = record {
  key = 4 ∷ [];
  left = some (root_leaf key_1 (1 ∷ 1 ∷ []));
  right = some (root_leaf (5 ∷ []) (84 ∷ []));
}

left_below : LeftBelow stuck.left tendermint_spec leaf_root (4 ∷ [])
unfolding ics.Prelude.Bytes.bytes_eq ics.Prelude.Bytes.bytes_lt ics.Tests.sample_prost
    ics.Tests.sample_host ics.Ops.do_hash ics.Ops.do_length ics.Ops.prepare_leaf_data
    ics.Ops.apply_leaf ics.Api.Specs.is_iavl_spec ics.Api.Prefix.ensure_leaf_prefix
    ics.Verify.Conformance.has_prefix ics.Verify.Conformance.ensure_leaf
    ics.Verify.Conformance.ensure_depth ics.Verify.Conformance.ensure_steps
    ics.Verify.Conformance.check_existence_spec ics.Verify.Existence.apply_path
    ics.Verify.Existence.calculate_existence_root ics.Verify.Existence.verify_existence
left_below = (refl, (1 ∷ [], 4 ∷ [], as_given refl, as_given refl, refl))

right_above : RightAbove stuck.right tendermint_spec leaf_root (4 ∷ [])
unfolding ics.Prelude.Bytes.bytes_eq ics.Prelude.Bytes.bytes_lt ics.Tests.sample_prost
    ics.Tests.sample_host ics.Ops.do_hash ics.Ops.do_length ics.Ops.prepare_leaf_data
    ics.Ops.apply_leaf ics.Api.Specs.is_iavl_spec ics.Api.Prefix.ensure_leaf_prefix
    ics.Verify.Conformance.has_prefix ics.Verify.Conformance.ensure_leaf
    ics.Verify.Conformance.ensure_depth ics.Verify.Conformance.ensure_steps
    ics.Verify.Conformance.check_existence_spec ics.Verify.Existence.apply_path
    ics.Verify.Existence.calculate_existence_root ics.Verify.Existence.verify_existence
right_above = (refl, (4 ∷ [], 5 ∷ [], as_given refl, as_given refl, refl))

verify_non_existence_panics_iff_example :
    verify_non_existence stuck tendermint_spec leaf_root (4 ∷ []) ≡ panic
verify_non_existence_panics_iff_example =
    (verify_non_existence_panics_iff tendermint_sized tendermint_branches stuck tendermint_spec
        leaf_root (4 ∷ []) refl).1
      (
        root_leaf key_1 (1 ∷ 1 ∷ []),
        root_leaf (5 ∷ []) (84 ∷ []),
        refl,
        refl,
        left_below,
        right_above,
        left_ends,
      )
