-- ===== src/Verify/Existence/Binding.antt =====
-- What a root that rust/src/verify.rs calculates says of the key and value at its leaf, for one path.
use ics.Prelude.{◌≡◌, refl, sym, ap, ◌∙◌, subst, ◌⊎◌, inl, inr, Option, some, List, [], ◌∷◌, ◌++◌}
use ics.Prelude.Bytes.{Bytes}
use ics.Prelude.Result.{ok}
use ics.Proto.Types.{LeafOp, InnerOp, ProofSpec, ExistenceProof}
use ics.Proto.Prost.{Prost, ProstLaws}
use ics.Host.{HostFunctionsProvider}
use ics.Ops.{do_hash, apply_leaf}
use ics.Ops.Framing.{IsFraming}
use ics.Ops.Binding.{
  eq_or_Collides, InnerCollides, inner_image, FitsLength, LeafCollides, apply_leaf_binding,
}
use ics.Verify.Existence.{calculate_existence_root_for_spec}
use ics.Verify.Existence.Laws.{
  step_hash, Climbs, arrived, climb, calculate_existence_root_for_spec_iff,
}
use mathlib.Core.List.{append_cancel_left, append_cancel_right}

module _ ⦃prost : Prost⦄ ⦃host : HostFunctionsProvider⦄ where
  -- Some step of the path hashes two different texts to one hash, on the way up from `a` and from `b`.
  abbrev pub PathCollides : List InnerOp → Bytes → Bytes → Type 0
  PathCollides [] a b = ⊥
  PathCollides (step ∷ path) a b =
      InnerCollides step a b ⊎ PathCollides path (step_hash step a) (step_hash step b)

  step_binding :
      (step : InnerOp) (a b : Bytes)
      → step_hash step a ≡ step_hash step b
      → (a ≡ b) ⊎ InnerCollides step a b
  step_binding step a b e =
      elim (eq_or_Collides (do_hash (prost.hash_op step.hash)) (inner_image step a)
        (inner_image step b) e) [
          | inl same ↦ inl (
              append_cancel_left step.prefix a b
                (append_cancel_right (step.prefix ++ a) (step.prefix ++ b) step.suffix same))
          | inr c ↦ inr c
        ]

  Climbs-binding :
      (path : List InnerOp) (a b root root' : Bytes)
      → Climbs path a root
      → Climbs path b root'
      → root ≡ root'
      → (a ≡ b) ⊎ PathCollides path a b
  Climbs-binding [] a b root root' arrived arrived same = inl same
  Climbs-binding (step ∷ path) a b root root' (climb _ p) (climb _ q) same =
      elim (Climbs-binding path (step_hash step a) (step_hash step b) root root' p q same) [
        | inr c ↦ inr (inr c)
        | inl e ↦ elim (step_binding step a b e) [ inl ab ↦ inl ab | inr c ↦ inr (inl c) ]
      ]

  -- The ways in which two proofs with one leaf operation and one path can lead to one root without
  -- being about the same pair: a collision in the leaves, or one on the way up from their hashes.
  pub data ProofsCollide (leaf : LeafOp) (path : List InnerOp) (k v k' v' : Bytes) : Type 0 where
    in_leaf : LeafCollides leaf k v k' v' → ProofsCollide leaf path k v k' v'
    on_path :
        (a b : Bytes)
        → apply_leaf leaf k v ≡ ok a
        → apply_leaf leaf k' v' ≡ ok b
        → PathCollides path a b
        → ProofsCollide leaf path k v k' v'

  -- Two existence proofs that have the same leaf operation and the same path and lead to the same
  -- root, under the same spec or none, are about the same key and value, or exhibit a collision. The
  -- length operation must frame its items, and the items must not be longer than its header can say.
  pub existence_root_binding :
      (laws : ProstLaws prost) (p q : ExistenceProof) (spec : Option ProofSpec) (leaf : LeafOp)
      (root : Bytes)
      → p.leaf ≡ some leaf
      → q.leaf ≡ some leaf
      → p.path ≡ q.path
      → IsFraming (prost.length_op leaf.length)
      → FitsLength leaf p.key p.value
      → FitsLength leaf q.key q.value
      → calculate_existence_root_for_spec p spec ≡ ok root
      → calculate_existence_root_for_spec q spec ≡ ok root
      → ((p.key ≡ q.key) × (p.value ≡ q.value))
        ⊎ ProofsCollide leaf p.path p.key p.value q.key q.value
  existence_root_binding laws p q spec leaf root lp lq same framing fp fq ep eq =
      let l = (calculate_existence_root_for_spec_iff p spec root).0 ep in
      let r = (calculate_existence_root_for_spec_iff q spec root).0 eq in
      let leaf_p : apply_leaf leaf p.key p.value ≡ ok l.hash =
        subst (λ o. apply_leaf o p.key p.value ≡ ok l.hash) (cc (l.has_leaf, lp)) l.leaf_hash in
      let leaf_q : apply_leaf leaf q.key q.value ≡ ok r.hash =
        subst (λ o. apply_leaf o q.key q.value ≡ ok r.hash) (cc (r.has_leaf, lq)) r.leaf_hash in
      let up : Climbs p.path r.hash root =
        subst (λ path. Climbs path r.hash root) (sym same) r.climbs in
      elim (Climbs-binding p.path l.hash r.hash root root l.climbs up refl) [
        | inr c ↦ inr (on_path l.hash r.hash leaf_p leaf_q c)
        | inl e ↦
            elim (apply_leaf_binding laws leaf p.key p.value q.key q.value l.hash framing fp fq
              leaf_p (leaf_q ∙ ap ok (sym e))) [ inl pair ↦ inl pair | inr c ↦ inr (in_leaf c) ]
      ]
