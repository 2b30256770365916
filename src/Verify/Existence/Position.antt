-- ===== src/Verify/Existence/Position.antt =====
-- What a root that rust/src/verify.rs accepts says of the key and value at a position of the tree: the
-- steps of two proofs need not be equal, only their branches, and every inner node has a prefix of one
-- length.
use ics.Prelude.{
  ℕ, ◌≡◌, refl, sym, ap, ◌∙◌, subst, ◌⊎◌, inl, inr, some, List, [], ◌∷◌, ◌++◌, length, arith,
  append_inj, length-append,
}
use ics.Prelude.Bytes.{Bytes}
use ics.Prelude.Result.{ok}
use ics.Proto.Types.{LeafOp, InnerOp, ProofSpec, ExistenceProof}
use ics.Proto.Prost.{Prost, ProstLaws}
use ics.Host.{HostFunctionsProvider}
use ics.Ops.{do_hash, apply_leaf}
use ics.Ops.Framing.{IsFraming}
use ics.Ops.Binding.{
  Collides, eq_or_Collides, inner_image, FitsLength, LeafCollides, apply_leaf_binding,
}
use ics.Verify.Padding.Order.{IsAt}
use ics.Verify.Existence.{verify_existence}
use ics.Verify.Existence.Laws.{step_hash, Climbs, arrived, climb, verify_existence_iff}

-- Two steps descend to one branch of `n` children of `size` bytes, after `min` bytes, with one hash.
abbrev pub SameBranch : ℕ → ℕ → ℕ → InnerOp → InnerOp → Type 0
SameBranch n size min p q =
    (p.hash ≡ q.hash) × ((b : ℕ) × IsAt n size min min p b × IsAt n size min min q b)

-- Two paths take the same branches all the way up.
abbrev pub SamePosition : ℕ → ℕ → ℕ → List InnerOp → List InnerOp → Type 0
SamePosition n size min [] [] = Unit {0}
SamePosition n size min (p ∷ path) (q ∷ other) =
    SameBranch n size min p q × SamePosition n size min path other
SamePosition n size min _ _ = ⊥

module _ ⦃prost : Prost⦄ ⦃host : HostFunctionsProvider⦄ where
  -- Somewhere on the way up from `a` and from `b`, two texts have one hash.
  abbrev pub PositionCollides : List InnerOp → List InnerOp → Bytes → Bytes → Type 0
  PositionCollides (p ∷ path) (q ∷ other) a b =
      Collides (do_hash (prost.hash_op p.hash)) (inner_image p a) (inner_image q b)
      ⊎ PositionCollides path other (step_hash p a) (step_hash q b)
  PositionCollides _ _ a b = ⊥

  -- The ways in which two proofs for one position can be accepted without being about the same pair.
  pub data PairsCollide (leaf : LeafOp) (path other : List InnerOp) (k v k' v' : Bytes)
      : Type 0 where
    in_leaf : LeafCollides leaf k v k' v' → PairsCollide leaf path other k v k' v'
    on_path :
        (a b : Bytes)
        → apply_leaf leaf k v ≡ ok a
        → apply_leaf leaf k' v' ≡ ok b
        → PositionCollides path other a b
        → PairsCollide leaf path other k v k' v'

  module _ (n size min : ℕ) where
    image_inj :
        (p q : InnerOp) (a b : Bytes)
        → SameBranch n size min p q
        → inner_image p a ≡ inner_image q b
        → a ≡ b
    image_inj p q a b (_, (branch, at_p, at_q)) e =
        let prefixes : length p.prefix ≡ length q.prefix =
          omega (arith, at_p.prefix_low, at_p.prefix_high, at_q.prefix_low, at_q.prefix_high) in
        let suffixes : length p.suffix ≡ length q.suffix =
          at_p.suffix_rest ∙ sym at_q.suffix_rest in
        let whole = ap length e in
        let fronts : length (p.prefix ++ a) ≡ length (q.prefix ++ b) = omega (
          arith,
          length-append (p.prefix ++ a) p.suffix,
          length-append (q.prefix ++ b) q.suffix,
          whole,
          suffixes,
        ) in
        let front = append_inj (p.prefix ++ a) p.suffix (q.prefix ++ b) q.suffix fronts e in
        (append_inj p.prefix a q.prefix b prefixes front.0).1

    step_position :
        (p q : InnerOp) (a b : Bytes)
        → SameBranch n size min p q
        → step_hash p a ≡ step_hash q b
        → (a ≡ b) ⊎ Collides (do_hash (prost.hash_op p.hash)) (inner_image p a) (inner_image q b)
    step_position p q a b same e =
        let one_hash = e ∙ ap (λ h. do_hash (prost.hash_op h) (inner_image q b)) (sym same.0) in
        elim (eq_or_Collides (do_hash (prost.hash_op p.hash)) (inner_image p a) (inner_image q b)
          one_hash) [ inl image ↦ inl (image_inj p q a b same image) | inr c ↦ inr c ]

    Climbs-position :
        (path other : List InnerOp) (a b root root' : Bytes)
        → SamePosition n size min path other
        → Climbs path a root
        → Climbs other b root'
        → root ≡ root'
        → (a ≡ b) ⊎ PositionCollides path other a b
    Climbs-position [] [] a b root root' s arrived arrived same = inl same
    Climbs-position [] (q ∷ other) a b root root' s c d same = elim s [ ]
    Climbs-position (p ∷ path) [] a b root root' s c d same = elim s [ ]
    Climbs-position (p ∷ path) (q ∷ other) a b root root' (here, up) (climb _ c) (climb _ d) same =
        elim (Climbs-position path other (step_hash p a) (step_hash q b) root root' up c d same) [
          | inr c ↦ inr (inr c)
          | inl e ↦ elim (step_position p q a b here e) [ inl ab ↦ inl ab | inr c ↦ inr (inl c) ]
        ]

    -- Where two proofs with one leaf operation take the same branches of inner nodes that have a prefix
    -- of one length, and `verify_existence` accepts both for one root, they are about the same key and
    -- value, or exhibit a collision. The length operation must frame its items, and the items must not
    -- be longer than its header can say.
    pub verify_existence_binds_position :
        (laws : ProstLaws prost) (p q : ExistenceProof) (spec : ProofSpec) (leaf : LeafOp)
        (root k v k' v' : Bytes)
        → p.leaf ≡ some leaf
        → q.leaf ≡ some leaf
        → SamePosition n size min p.path q.path
        → IsFraming (prost.length_op leaf.length)
        → FitsLength leaf p.key p.value
        → FitsLength leaf q.key q.value
        → verify_existence p spec root k v ≡ ok tt
        → verify_existence q spec root k' v' ≡ ok tt
        → ((k ≡ k') × (v ≡ v')) ⊎ PairsCollide leaf p.path q.path p.key p.value q.key q.value
    verify_existence_binds_position laws p q spec leaf root k v k' v' lp lq same framing fp fq ep
          eq =
        let (_, key_p, value_p, l) = (verify_existence_iff p spec root k v).0 ep in
        let (_, key_q, value_q, r) = (verify_existence_iff q spec root k' v').0 eq in
        let leaf_p : apply_leaf leaf p.key p.value ≡ ok l.hash =
          subst (λ o. apply_leaf o p.key p.value ≡ ok l.hash) (cc (l.has_leaf, lp)) l.leaf_hash in
        let leaf_q : apply_leaf leaf q.key q.value ≡ ok r.hash =
          subst (λ o. apply_leaf o q.key q.value ≡ ok r.hash) (cc (r.has_leaf, lq)) r.leaf_hash in
        elim (Climbs-position p.path q.path l.hash r.hash root root same l.climbs r.climbs refl) [
          | inr c ↦ inr (on_path l.hash r.hash leaf_p leaf_q c)
          | inl e ↦
              elim (apply_leaf_binding laws leaf p.key p.value q.key q.value l.hash framing fp fq
                leaf_p (leaf_q ∙ ap ok (sym e))) [
                  | inl pair ↦ inl (sym key_p ∙ pair.0 ∙ key_q, sym value_p ∙ pair.1 ∙ value_q)
                  | inr c ↦ inr (in_leaf c)
                ]
        ]
