-- ===== src/Verify/Tree/Refinement.antt =====
-- What rust/src/verify.rs accepts, against the list of a tree's pairs: a membership proof is about one
-- of them, and a non-membership proof about none.
use ics.Prelude.{
  ℕ, ◌≤◌, ◌≡◌, sym, ap, ◌∙◌, subst, ◌⊎◌, inl, inr, Option, none, some, List, [], ◌∷◌, ◌++◌, length,
  All, reverse,
}
use ics.Prelude.Bytes.{Bytes}
use ics.Prelude.Result.{ok}
use ics.Proto.Types.{LeafOp, InnerOp, InnerSpec, ProofSpec, ExistenceProof, NonExistenceProof}
use ics.Proto.Prost.{Prost, ProstLaws}
use ics.Host.{HostFunctionsProvider}
use ics.Ops.{do_hash, apply_leaf}
use ics.Ops.Framing.{IsFraming}
use ics.Ops.Binding.{FitsLength, apply_leaf-LeafParts, leaf_image, LeafParts-image}
use ics.Verify.Shape.{IsSized}
use ics.Verify.Padding.Order.{HoldsBranches}
use ics.Verify.Conformance.Checked.{StepsFit, check_existence_spec_iff}
use ics.Verify.Existence.{verify_existence}
use ics.Verify.Existence.Laws.{verify_existence_iff}
use ics.Verify.Neighbor.Edge.{IsFirst, IsLast}
use ics.Prelude.{All-reverse}
use ics.Verify.NonExistence.{verify_non_existence}
use ics.Verify.NonExistence.Compared.{IsSmaller-iff}
use ics.Verify.NonExistence.Laws.{
  LeftBelow, RightAbove, IsGap, between, after_last, before_first, verify_non_existence_iff,
}
use ics.Verify.Tree.{Tree, entries, IsSorted, HasHash, hash_of}
use ics.Verify.Tree.Descent.{rise, Climbs-rise, Descends, Clash}
use ics.Verify.Tree.Soundness.{Form, descend}
use ics.Verify.Tree.Gap.{last_entry, first_entry, adjacent_entries, some_entry}
use ics.Verify.Tree.Order.{Lacks, Lacks-after_last, Lacks-above, Lacks-between}
use mathlib.Core.List.{append_assoc, Memᴰ}
use ics.Prelude.Numbered.{Memᴰ-middle}

-- A spec whose nodes can be told apart: leaves and inner nodes have one hash, the prefix of an inner
-- node has one length, which is not shorter than a leaf's prefix, and a hash is as long as a child.
pub record IsUniform ⦃prost : Prost⦄ ⦃host : HostFunctionsProvider⦄ (spec : ProofSpec) (op : LeafOp)
    (inner : InnerSpec) (n size min : ℕ) : Type 0 where
  pub has_leaf : spec.leaf_spec ≡ some op
  pub has_inner : spec.inner_spec ≡ some inner
  pub sized : IsSized inner n size min min
  pub framing : IsFraming (prost.length_op op.length)
  pub same_hash : op.hash ≡ inner.hash
  pub short : length op.prefix ≤ min
  pub hash_size : (text : Bytes) → length (hash_of inner text) ≡ size

module _ ⦃prost : Prost⦄ ⦃host : HostFunctionsProvider⦄ (laws : ProstLaws prost) (spec : ProofSpec)
    (op : LeafOp) (inner : InnerSpec) (n size min : ℕ)
    (u : IsUniform spec op inner n size min) where
  -- The texts of a proof and of a tree in which they clash.
  abbrev pub ProofClash : Tree → ExistenceProof → Type 0
  ProofClash t proof =
      (text : Bytes) × (leaf_image op proof.key proof.value ≡ ok text)
      × Clash op inner n size min t (reverse proof.path) proof.key proof.value text

  abbrev pub SideClash : Tree → Option ExistenceProof → Type 0
  SideClash t none = ⊥
  SideClash t (some proof) = ProofClash t proof

  -- A proof with the leaf operation of the spec, about a pair that its length operation can frame.
  abbrev pub IsPlain : ExistenceProof → Type 0
  IsPlain proof = (proof.leaf ≡ some op) × FitsLength op proof.key proof.value

  abbrev pub IsPlainSide : Option ExistenceProof → Type 0
  IsPlainSide none = Unit
  IsPlainSide (some proof) = IsPlain proof

  forms :
      (path : List InnerOp) (idx : ℕ)
      → StepsFit spec op inner n size min min idx path
      → All (Form op inner n size min u.sized.size_pos) path
  forms [] idx h = tt
  forms (step ∷ path) idx (_, form, rest) = (form, forms path _ rest)

  -- An accepted proof leads down the tree to its pair, or clashes with it.
  follow :
      (t : Tree) (proof : ExistenceProof) (root key value : Bytes)
      → HasHash op inner n size min t root
      → IsPlain proof
      → verify_existence proof spec root key value ≡ ok tt
      → Descends op inner n size min t (reverse proof.path) proof.key proof.value
        ⊎ ProofClash t proof
  follow t proof root key value rooted (plain, fits) e =
      let (checked, _, _, leads) = (verify_existence_iff proof spec root key value).0 e in
      let conforms =
        (check_existence_spec_iff spec op inner n size min min u.sized u.has_leaf u.has_inner
            proof).0
          checked in
      let hashed : apply_leaf op proof.key proof.value ≡ ok leads.hash =
        subst (λ o. apply_leaf o proof.key proof.value ≡ ok leads.hash) (cc (leads.has_leaf, plain))
          leads.leaf_hash in
      let parts = apply_leaf-LeafParts op proof.key proof.value leads.hash hashed in
      let over = (op.prefix ++ parts.prekey) ++ parts.preval in
      let is_hash : leads.hash ≡ hash_of inner over =
        parts.hashed ∙ ap (λ h. do_hash (prost.hash_op h) over) u.same_hash in
      elim (descend op inner n size min u.sized.size_pos laws u.framing u.same_hash u.short
        u.hash_size proof.key proof.value over (parts.prekey ++ parts.preval) fits
        (append_assoc op.prefix parts.prekey parts.preval) (hashed ∙ ap ok is_hash) t
        (reverse proof.path) root rooted
        (All-reverse (Form op inner n size min u.sized.size_pos) proof.path
          (forms proof.path 0 conforms.steps))
        (Climbs-rise proof.path leads.hash root leads.climbs
          ∙ ap (rise (reverse proof.path)) is_hash)) [
            | inl d ↦ inl d
            | inr c ↦ inr (over, LeafParts-image op proof.key proof.value parts, c)
          ]

  -- For a uniform spec and a tree with the root, `verify_existence` accepts a plain proof only for a
  -- pair that is in the list of the tree's pairs, or a text of the proof and one of the tree clash: they
  -- have one hash, or a text of the proof has the hash of the empty child.
  pub verify_existence_refines :
      (t : Tree) (proof : ExistenceProof) (root key value : Bytes)
      → HasHash op inner n size min t root
      → IsPlain proof
      → verify_existence proof spec root key value ≡ ok tt
      → Memᴰ (key, value) (entries n t) ⊎ ProofClash t proof
  verify_existence_refines t proof root key value rooted plain e =
      let (_, same_key, same_value, _) = (verify_existence_iff proof spec root key value).0 e in
      elim (follow t proof root key value rooted plain e) [
        | inr c ↦ inr c
        | inl d ↦
            let (before, after, here) = some_entry op inner n size min d in
            inl (
              subst (Memᴰ (key, value))
                (sym (here ∙ λ i. before ++ (same_key i, same_value i) ∷ after))
                (Memᴰ-middle before (key, value) after))
      ]

  module _ (order : HoldsBranches inner n) where
    abbrev Excluded : Tree → Bytes → Option ExistenceProof → Option ExistenceProof → Type 0
    Excluded t key left right =
        Lacks spec key (entries n t) ⊎ (SideClash t left ⊎ SideClash t right)

    excluded :
        (t : Tree) (root key : Bytes) {left right : Option ExistenceProof}
        → HasHash op inner n size min t root
        → IsSorted spec (entries n t)
        → IsPlainSide left
        → IsPlainSide right
        → IsGap u.sized order left right
        → LeftBelow left spec root key
        → RightAbove right spec root key
        → Excluded t key left right
    excluded t root key rooted sorted plain_l plain_r (between {left = l} {right = r} a) (el, below)
          (er, above) =
        elim (follow t l root l.key l.value rooted plain_l el) [
          | inr c ↦ inr (inl c)
          | inl d ↦ elim (follow t r root r.key r.value rooted plain_r er) [
            | inr c ↦ inr (inr c)
            | inl d' ↦
                let (before, after, e) =
                  adjacent_entries op inner n size min u.sized order a.forks d d' a.adjacent
                    a.keeps_right a.keeps_left in
                inl (
                  subst (Lacks spec key) (sym e) (
                    Lacks-between spec before (l.key, l.value) (r.key, r.value) after key
                      (subst (IsSorted spec) e sorted) ((IsSmaller-iff spec l.key key).0 below)
                      ((IsSmaller-iff spec key r.key).0 above)))
          ]
        ]
    excluded t root key rooted sorted plain_l plain_r (after_last {left = l} a) (el, below) above =
        elim (follow t l root l.key l.value rooted plain_l el) [
          | inr c ↦ inr (inl c)
          | inl d ↦
              let (before, e) =
                last_entry op inner n size min u.sized order d
                  (All-reverse (IsLast u.sized order) l.path a) in
              inl (
                subst (Lacks spec key) (sym e) (
                  Lacks-after_last spec before (l.key, l.value) key (subst (IsSorted spec) e sorted)
                    ((IsSmaller-iff spec l.key key).0 below)))
        ]
    excluded t root key rooted sorted plain_l plain_r (before_first {right = r} a) below
          (er, above) =
        elim (follow t r root r.key r.value rooted plain_r er) [
          | inr c ↦ inr (inr c)
          | inl d ↦
              let (after, e) =
                first_entry op inner n size min u.sized order d
                  (All-reverse (IsFirst u.sized order) r.path a) in
              inl (
                subst (Lacks spec key) (sym e) (
                  Lacks-above spec (r.key, r.value) after key (subst (IsSorted spec) e sorted)
                    ((IsSmaller-iff spec key r.key).0 above)))
        ]

    -- For a uniform spec whose child order names every branch, and a tree with the root whose keys
    -- increase from left to right, `verify_non_existence` accepts a proof with plain neighbours only for
    -- a key that no pair of the tree has, or a text of a neighbour and one of the tree clash: they have
    -- one hash, or a text of the neighbour has the hash of the empty child.
    pub verify_non_existence_refines :
        (t : Tree) (proof : NonExistenceProof) (root key : Bytes)
        → HasHash op inner n size min t root
        → IsSorted spec (entries n t)
        → IsPlainSide proof.left
        → IsPlainSide proof.right
        → verify_non_existence proof spec root key ≡ ok tt
        → Lacks spec key (entries n t) ⊎ (SideClash t proof.left ⊎ SideClash t proof.right)
    verify_non_existence_refines t proof root key rooted sorted plain_l plain_r e =
        let (below, above, gap) =
          (verify_non_existence_iff u.sized order proof spec root key u.has_inner).0 e in
        excluded t root key rooted sorted plain_l plain_r gap below above
