-- ===== src/Tests/Indices.antt =====
-- A compressed proof with an index that its table does not have.
use ics.Prelude.{◌↔◌, ◌≡◌, refl, none, some, List, [], ◌∷◌, get_elem?}
use ics.Prelude.Int.{pos, as_usize}
use ics.Prelude.Result.{ok}
use ics.Proto.Types.{LeafOp, InnerOp, CompressedExistenceProof}
use ics.Ops.{apply_leaf}
use ics.Api.Specs.{tendermint_leaf, tendermint_spec}
use ics.Compress.{decompress_exist}
use ics.Verify.Conformance.{check_existence_spec}
use ics.Verify.Existence.{verify_existence}
use ics.Membership.Indices.{pathless, verify_existence_bad_index}
use ics.Tests.{sample_prost, sample_host}
use ics.Tests.Samples.{leaf_hash}
use mathlib.Core.List.{Memᴰ}

abbrev astray : CompressedExistenceProof
astray = record { key = 1 ∷ []; value = 1 ∷ 1 ∷ []; leaf = some tendermint_leaf; path = pos 5 ∷ [] }

misses_5 : get_elem? {A = InnerOp} [] (as_usize (pos 5)) ≡ none
misses_5 = refl

verify_existence_bad_index_example :
    (decompress_exist astray [] ≡ pathless astray)
    × ((verify_existence
            (decompress_exist astray [])
            tendermint_spec
            (leaf_hash 1)
            (1 ∷ [])
            (1 ∷ 1 ∷ [])
          ≡ ok tt)
        ↔ ((check_existence_spec (pathless astray) tendermint_spec ≡ ok tt)
            × (astray.key ≡ 1 ∷ [])
            × (astray.value ≡ 1 ∷ 1 ∷ [])
            × ((leaf : LeafOp) × (astray.leaf ≡ some leaf)
                × (apply_leaf leaf astray.key astray.value ≡ ok (leaf_hash 1)))))
verify_existence_bad_index_example =
    verify_existence_bad_index astray [] tendermint_spec (leaf_hash 1) (1 ∷ []) (1 ∷ 1 ∷ []) (pos 5)
      (Memᴰ.head refl) misses_5

accepts_astray :
    verify_existence
      (decompress_exist astray [])
      tendermint_spec
      (leaf_hash 1)
      (1 ∷ [])
      (1 ∷ 1 ∷ [])
    ≡ ok tt
unfolding ics.Prelude.Bytes.bytes_eq ics.Tests.sample_prost ics.Tests.sample_host ics.Ops.do_hash
    ics.Ops.do_length ics.Ops.prepare_leaf_data ics.Ops.apply_leaf ics.Api.Specs.is_iavl_spec
    ics.Api.Prefix.ensure_leaf_prefix ics.Verify.Conformance.has_prefix
    ics.Verify.Conformance.ensure_leaf ics.Verify.Conformance.ensure_depth
    ics.Verify.Conformance.ensure_steps ics.Verify.Conformance.check_existence_spec
    ics.Verify.Existence.apply_path ics.Verify.Existence.calculate_existence_root
    ics.Verify.Existence.verify_existence ics.Compress.decompress_exist
accepts_astray = refl
