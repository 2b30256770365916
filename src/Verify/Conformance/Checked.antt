-- ===== src/Verify/Conformance/Checked.antt =====
-- `check_existence_spec` of rust/src/verify.rs as a whole, against a description of the proofs that
-- conform to a spec.
use ics.Prelude.{
  ℕ, suc, ◌≤◌, ◌≡◌, refl, sym, ap, ◌∙◌, ◌↔◌, ◌⊎◌, inl, inr, false, Option, none, some, List, [],
  ◌∷◌, length, leb, leb→le, le→leb, arith, Bool-cases,
}
use ics.Prelude.Int.{pos, eqb_ℤ, eqb_ℤ_iff, as_usize}
use ics.Prelude.Result.{
  ok, ensure, ensure_iff, >>-eq-ok, >>-eq-ok_of, too_few_inner_ops, too_many_inner_ops,
}
use ics.Proto.Enums.{hash_op_i32, sha256}
use ics.Proto.Types.{LeafOp, InnerOp, InnerSpec, ProofSpec, ExistenceProof}
use ics.Proto.Prost.{Prost}
use ics.Api.Specs.{is_iavl_spec}
use ics.Api.Prefix.{ensure_leaf_prefix, ensure_inner_prefix}
use ics.Api.Prefix.Headers.{IavlHeader, ensure_leaf_prefix_iff, ensure_inner_prefix_iff}
use ics.Verify.Shape.{IsSized}
use ics.Verify.Conformance.{
  ensure_leaf, ensure_inner_for, ensure_inner, ensure_depth, ensure_steps, check_existence_spec,
  check_with,
}
use ics.Verify.Conformance.Laws.{
  IsSpecLeaf, ensure_leaf_iff, IsSpecInner, ensure_inner_for_iff, ensure->>_iff,
}

-- The bounds on the number of inner nodes, which count only if the lower one is not 0.
abbrev pub DepthFits : ProofSpec → ℕ → Type 0
DepthFits spec depth =
    (spec.min_depth ≡ pos 0)
    ⊎ ((as_usize spec.min_depth ≤ depth) × (depth ≤ as_usize spec.max_depth))

ensure_depth_iff :
    (spec : ProofSpec) (depth : ℕ) → (ensure_depth spec depth ≡ ok tt) ↔ DepthFits spec depth
unfolding ensure_depth
ensure_depth_iff spec depth = elim (Bool-cases (eqb_ℤ spec.min_depth (pos 0))) [
  | inl unset ↦ (λ e. inl ((eqb_ℤ_iff spec.min_depth (pos 0)).0 unset), λ d. rw unset)
  | inr set ↦
      let chain =
        ensure->>_iff (leb (as_usize spec.min_depth) depth) too_few_inner_ops
          (ensure (leb depth (as_usize spec.max_depth)) too_many_inner_ops) (ensure_iff _ _) in
      rw set (
        λ e. let (lo, hi) = chain.0 e in inr (leb→le _ _ lo, leb→le _ _ hi),
        λ d. elim d [
          | inl zero_depth ↦
              absurd (ground (arith, (eqb_ℤ_iff spec.min_depth (pos 0)).1 zero_depth))
          | inr (lo, hi) ↦ chain.1 (le→leb _ _ lo, le→leb _ _ hi)
        ],
      )
]

module _ ⦃prost : Prost⦄ (spec : ProofSpec) (leaf_spec : LeafOp) (inner_spec : InnerSpec)
    (n size min max : ℕ) where
  -- Where the spec is the IAVL one, a leaf's prefix is a header of height 0 or more.
  abbrev pub LeafHeaderFits : LeafOp → Type 0
  LeafHeaderFits leaf = (is_iavl_spec spec ≡ false) ⊎ IavlHeader leaf.prefix (pos 0) 0

  -- Where the spec is the IAVL one, the prefix of the step in layer `height` is a header of that
  -- height or more, followed by one length byte, or by two and a child's hash.
  abbrev pub LayerHeaderFits : ℕ → InnerOp → Type 0
  LayerHeaderFits height step =
      (is_iavl_spec spec ≡ false)
      ⊎ ((IavlHeader step.prefix (pos height) 1 ⊎ IavlHeader step.prefix (pos height) 34)
          × (step.hash ≡ hash_op_i32 sha256))

  -- Every step of the path, the first of them in layer `idx + 1`.
  abbrev pub StepsFit : ℕ → List InnerOp → Type 0
  StepsFit idx [] = Unit {0}
  StepsFit idx (step ∷ path) =
      LayerHeaderFits (suc idx) step
      × IsSpecInner step leaf_spec inner_spec n size min max
      × StepsFit (suc idx) path

  pub record Conforms (proof : ExistenceProof) : Type 0 where
    pub leaf : LeafOp
    pub has_leaf : proof.leaf ≡ some leaf
    pub leaf_header : LeafHeaderFits leaf
    pub leaf_form : IsSpecLeaf leaf leaf_spec
    pub depth : DepthFits spec (length proof.path)
    pub steps : StepsFit 0 proof.path

  module _ (sized : IsSized inner_spec n size min max) (has_leaf : spec.leaf_spec ≡ some leaf_spec)
      (has_inner : spec.inner_spec ≡ some inner_spec) where
    ensure_inner-eq :
        (step : InnerOp) → ensure_inner step spec ≡ ensure_inner_for step leaf_spec inner_spec
    unfolding ensure_inner
    ensure_inner-eq step = rw (has_leaf, has_inner)

    ensure_steps_iff :
        (path : List InnerOp) (idx : ℕ) → (ensure_steps spec path idx ≡ ok tt) ↔ StepsFit idx path
    unfolding ensure_steps
    ensure_steps_iff [] idx = (λ e. tt, λ h. refl)
    ensure_steps_iff (step ∷ path) idx = (
      λ e.
          let (header, e') =
            >>-eq-ok (ensure_inner_prefix step.prefix spec (pos (suc idx)) step.hash) _ e in
          let (form, rest) = >>-eq-ok (ensure_inner step spec) _ e' in
          (
            (ensure_inner_prefix_iff step.prefix spec (pos (suc idx)) step.hash).0 header,
            (ensure_inner_for_iff step leaf_spec inner_spec sized).0
                (sym (ensure_inner-eq step) ∙ form),
            (ensure_steps_iff path (suc idx)).0 rest,
          ),
      λ (header, form, rest).
          >>-eq-ok_of (ensure_inner_prefix step.prefix spec (pos (suc idx)) step.hash) _
            ((ensure_inner_prefix_iff step.prefix spec (pos (suc idx)) step.hash).1 header)
            (>>-eq-ok_of (ensure_inner step spec) (ensure_steps spec path (suc idx))
              (ensure_inner-eq step ∙ (ensure_inner_for_iff step leaf_spec inner_spec sized).1 form)
              ((ensure_steps_iff path (suc idx)).1 rest)),
    )

    check_with_iff :
        (proof : ExistenceProof) (leaf : LeafOp)
        → (check_with proof spec (some leaf) (some leaf_spec) ≡ ok tt) ↔ (
            LeafHeaderFits leaf
            × IsSpecLeaf leaf leaf_spec
            × DepthFits spec (length proof.path)
            × StepsFit 0 proof.path)
    check_with_iff proof leaf = (
      λ e.
          let (header, e₁) = >>-eq-ok (ensure_leaf_prefix leaf.prefix spec) _ e in
          let (form, e₂) = >>-eq-ok (ensure_leaf leaf leaf_spec) _ e₁ in
          let (depth, steps) = >>-eq-ok (ensure_depth spec (length proof.path)) _ e₂ in
          (
            (ensure_leaf_prefix_iff leaf.prefix spec).0 header,
            (ensure_leaf_iff leaf leaf_spec).0 form,
            (ensure_depth_iff spec (length proof.path)).0 depth,
            (ensure_steps_iff proof.path 0).0 steps,
          ),
      λ (header, form, depth, steps).
          >>-eq-ok_of (ensure_leaf_prefix leaf.prefix spec) _
            ((ensure_leaf_prefix_iff leaf.prefix spec).1 header)
            (>>-eq-ok_of (ensure_leaf leaf leaf_spec) _ ((ensure_leaf_iff leaf leaf_spec).1 form) (
              >>-eq-ok_of (ensure_depth spec (length proof.path)) (ensure_steps spec proof.path 0)
                ((ensure_depth_iff spec (length proof.path)).1 depth)
                ((ensure_steps_iff proof.path 0).1 steps))),
    )

    -- For a spec with both parts and a sized inner part, `check_existence_spec` accepts exactly the
    -- proofs that conform: a leaf with the spec's operations and prefix, a number of inner nodes
    -- within bounds, inner nodes that fit, and the headers of an IAVL tree if the spec is that tree's.
    pub check_existence_spec_iff :
        (proof : ExistenceProof) → (check_existence_spec proof spec ≡ ok tt) ↔ Conforms proof
    unfolding check_existence_spec
    check_existence_spec_iff proof = (sound proof.leaf refl, complete)
      where
        sound :
            (leaf : Option LeafOp)
            → proof.leaf ≡ leaf
            → check_with proof spec proof.leaf spec.leaf_spec ≡ ok tt
            → Conforms proof
        sound none p e = absurd (ground (arith, has_leaf))
        sound (some leaf) p e =
            let (header, form, depth, steps) = (check_with_iff proof leaf).0 (
              ap (check_with proof spec (some leaf)) (sym has_leaf)
              ∙ ap (λ l. check_with proof spec l spec.leaf_spec) (sym p)
              ∙ e) in
            record {
              leaf = leaf;
              has_leaf = p;
              leaf_header = header;
              leaf_form = form;
              depth = depth;
              steps = steps;
            }

        complete : Conforms proof → check_with proof spec proof.leaf spec.leaf_spec ≡ ok tt
        complete c =
            ap (λ l. check_with proof spec l spec.leaf_spec) c.has_leaf
            ∙ ap (check_with proof spec (some c.leaf)) has_leaf
            ∙ (check_with_iff proof c.leaf).1 (c.leaf_header, c.leaf_form, c.depth, c.steps)
