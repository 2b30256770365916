-- ===== src/Verify/Conformance/Depth.antt =====
-- The depth bounds in `check_existence_spec` of rust/src/verify.rs.
use ics.Prelude.{ℕ, suc, ◌≡◌, refl, Option, none, some, List, [], ◌∷◌, length}
use ics.Prelude.Int.{ℤ, pos}
use ics.Prelude.Result.{ok}
use ics.Proto.Types.{LeafOp, InnerOp, ProofSpec, ExistenceProof}
use ics.Proto.Prost.{Prost}
use ics.Api.Specs.{is_iavl_spec, spec_equals}
use ics.Api.Prefix.{ensure_leaf_prefix, ensure_inner_prefix}
use ics.Verify.Conformance.{
  ensure_inner, ensure_depth, ensure_steps, check_with, check_existence_spec,
}

-- The spec with another upper bound on the number of inner nodes.
abbrev pub with_max_depth : ProofSpec → ℤ → ProofSpec
with_max_depth spec m = record spec { max_depth = m }

ensure_depth_unbounded :
    (spec : ProofSpec) (depth : ℕ) → spec.min_depth ≡ pos 0 → ensure_depth spec depth ≡ ok tt
unfolding ensure_depth
ensure_depth_unbounded spec depth h = rw h

module _ ⦃prost : Prost⦄ (spec : ProofSpec) (m : ℤ) where
  ensure_steps-same :
      (path : List InnerOp) (idx : ℕ)
      → ensure_steps (with_max_depth spec m) path idx ≡ ensure_steps spec path idx
  unfolding ensure_steps ensure_inner_prefix is_iavl_spec spec_equals ensure_inner
  ensure_steps-same [] idx = refl
  ensure_steps-same (step ∷ path) idx = rw (ensure_steps-same path (suc idx))

  check_with-same :
      (proof : ExistenceProof) (leaf leaf_spec : Option LeafOp)
      → spec.min_depth ≡ pos 0
      → check_with proof (with_max_depth spec m) leaf leaf_spec
        ≡ check_with proof spec leaf leaf_spec
  unfolding ensure_leaf_prefix is_iavl_spec spec_equals
  check_with-same proof none leaf_spec h = refl
  check_with-same proof (some leaf) none h = refl
  check_with-same proof (some leaf) (some leaf_spec) h = rw (
    ensure_depth_unbounded spec (length proof.path) h,
    ensure_depth_unbounded (with_max_depth spec m) (length proof.path) h,
    ensure_steps-same proof.path 0,
  )

  -- Where a spec has no minimum depth, its maximum depth does not matter: any other gives the same
  -- result.
  pub check_existence_spec-max_depth :
      (proof : ExistenceProof)
      → spec.min_depth ≡ pos 0
      → check_existence_spec proof (with_max_depth spec m) ≡ check_existence_spec proof spec
  unfolding check_existence_spec
  check_existence_spec-max_depth proof h = check_with-same proof proof.leaf spec.leaf_spec h
