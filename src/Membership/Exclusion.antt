-- ===== src/Membership/Exclusion.antt =====
-- Which non-existence proof of a batch `get_nonexist_proof` of rust/src/api.rs selects.
use ics.Prelude.{
  ◌≡◌, refl, sym, ap, ◌↔◌, ◌⊎◌, inl, inr, true, Option, none, some, List, arith, subst, Bool-cases,
  ◌&&◌, Bool, false, if◌then◌else◌,
}
use ics.Prelude.Bytes.{Bytes}
use ics.Proto.Enums.{no_hash}
use ics.Proto.Types.{
  LeafOp, ProofSpec, ExistenceProof, NonExistenceProof, CommitmentProof, CommitmentOneof,
  BatchProof, BatchEntry, BatchOneof,
}
use ics.Proto.Prost.{Prost, ProstLaws}
use ics.Host.{HostFunctionsProvider}
use ics.Ops.{do_hash}
use ics.Verify.NonExistence.{prehash_key_of, key_for_comparison}
use ics.Verify.NonExistence.Compared.{
  ComparesAs, as_given, as_hashed, as_default, Precedes, Precedes-iff,
}
use ics.Membership.{
  below, above, nonexist_or, prehash_or_default, lookup_key, encloses, find_nonexist, nonexist_of,
  get_nonexist_proof,
}
use ics.Membership.Selection.{First, find_iff}

module _ ⦃prost : Prost⦄ ⦃host : HostFunctionsProvider⦄ where
  lookup_key-ComparesAs :
      (spec : ProofSpec) (key : Bytes) → ComparesAs no_hash spec key (lookup_key spec key)
  unfolding lookup_key
  lookup_key-ComparesAs spec key = go spec.prehash_key_before_comparison spec.leaf_spec refl refl
    where
      go :
          (pre : Bool) (leaf : Option LeafOp)
          → spec.prehash_key_before_comparison ≡ pre
          → spec.leaf_spec ≡ leaf
          → ComparesAs no_hash spec key (if pre then do_hash (prehash_or_default leaf) key else key)
      go false leaf p l = as_given p
      go true none p l = as_default p l
      go true (some leaf) p l = as_hashed p l

  -- The left proof, if there is one, has a smaller key; a spec without a leaf spec has keys hashed by no
  -- hash.
  abbrev pub IsBelow : Option ExistenceProof → ProofSpec → Bytes → Type 0
  IsBelow none spec key = Unit {0}
  IsBelow (some left) spec key = Precedes no_hash spec left.key key

  -- The right proof, if there is one, has a larger key.
  abbrev pub IsAbove : Option ExistenceProof → ProofSpec → Bytes → Type 0
  IsAbove none spec key = Unit {0}
  IsAbove (some right) spec key = Precedes no_hash spec key right.key

  -- The key lies strictly between the keys of the proofs that there are.
  abbrev pub Encloses : NonExistenceProof → ProofSpec → Bytes → Type 0
  Encloses non spec key = IsBelow non.left spec key × IsAbove non.right spec key

  below_iff :
      (left : Option ExistenceProof) (spec : ProofSpec) (key : Bytes)
      → (below left spec key ≡ true) ↔ IsBelow left spec key
  below_iff none spec key = (λ e. tt, λ u. refl)
  below_iff (some left) spec key =
      let iff =
        Precedes-iff no_hash spec (lookup_key spec) (lookup_key-ComparesAs spec) left.key key in
      (iff.1, iff.0)

  above_iff :
      (right : Option ExistenceProof) (spec : ProofSpec) (key : Bytes)
      → (above right spec key ≡ true) ↔ IsAbove right spec key
  above_iff none spec key = (λ e. tt, λ u. refl)
  above_iff (some right) spec key =
      let iff =
        Precedes-iff no_hash spec (lookup_key spec) (lookup_key-ComparesAs spec) key right.key in
      (iff.1, iff.0)

  encloses_iff :
      (non : NonExistenceProof) (spec : ProofSpec) (key : Bytes)
      → (encloses non spec key ≡ true) ↔ Encloses non spec key
  unfolding encloses
  encloses_iff non spec key =
      let both : (below non.left spec key && above non.right spec key ≡ true)
          ↔ ((below non.left spec key ≡ true) × (above non.right spec key ≡ true)) =
        ground arith in
      (
        λ e.
            let (l, r) = both.0 e in
            ((below_iff non.left spec key).0 l, (above_iff non.right spec key).0 r),
        λ (l, r). both.1 ((below_iff non.left spec key).1 l, (above_iff non.right spec key).1 r),
      )

  -- The entry is a non-existence proof whose keys enclose the key.
  abbrev pub IsNonexistFor : Bytes → ProofSpec → Option BatchOneof → NonExistenceProof → Type 0
  IsNonexistFor key spec o non = (o ≡ some (BatchOneof.nonexist non)) × Encloses non spec key

  nonexist_or-cases :
      (key : Bytes) (spec : ProofSpec) (o : Option BatchOneof) (rest : Option NonExistenceProof)
      (non : NonExistenceProof)
      → (nonexist_or key spec o rest ≡ some non) ↔ (
          IsNonexistFor key spec o non
          ⊎ ((rest ≡ some non) × ((other : NonExistenceProof) → ¬ IsNonexistFor key spec o other)))
  nonexist_or-cases key spec none rest non =
      (λ e. inr (e, λ other p. absurd (cc)), λ h. ground arith)
  nonexist_or-cases key spec (some (BatchOneof.exist ex)) rest non =
      (λ e. inr (e, λ other p. absurd (cc)), λ h. ground arith)
  nonexist_or-cases key spec (some (BatchOneof.nonexist one)) rest non =
      elim (Bool-cases (encloses one spec key)) [
        | inl inside ↦ rw inside (
          λ e.
              let is_one : one ≡ non = cc in
              inl (
                ap (λ x. some (BatchOneof.nonexist x)) is_one,
                subst (λ x. Encloses x spec key) is_one ((encloses_iff one spec key).0 inside),
              ),
          λ h. elim h [
            | inl (p, k) ↦ cc
            | inr (_, others) ↦ absurd (others one (refl, (encloses_iff one spec key).0 inside))
          ],
        )
        | inr outside ↦ rw outside (
          λ e. inr (
            e,
            λ other (p, k).
                let is_one : other ≡ one = cc in
                cc (
                  outside,
                  (encloses_iff one spec key).1 (subst (λ x. Encloses x spec key) is_one k),
                ),
          ),
          λ h. elim h [
            | inl (p, k) ↦
                let is_one : non ≡ one = cc in
                absurd (
                  cc (
                    outside,
                    (encloses_iff one spec key).1 (subst (λ x. Encloses x spec key) is_one k),
                  ))
            | inr (r, _) ↦ r
          ],
        )
      ]

  find_nonexist_iff :
      (key : Bytes) (spec : ProofSpec) (entries : List BatchEntry) (non : NonExistenceProof)
      → (find_nonexist key spec entries ≡ some non) ↔ First (IsNonexistFor key spec) entries non
  unfolding find_nonexist
  find_nonexist_iff key spec =
      find_iff (IsNonexistFor key spec) (nonexist_or key spec) (nonexist_or-cases key spec)
        (find_nonexist key spec) refl (λ entry entries. refl)

  -- The non-existence proof for a key that a commitment proof offers.
  pub data OffersNonexist (key : Bytes) (spec : ProofSpec)
      : Option CommitmentOneof → NonExistenceProof → Type 0 where
    alone :
        {non : NonExistenceProof}
        → Encloses non spec key
        → OffersNonexist key spec (some (CommitmentOneof.nonexist non)) non
    in_batch :
        {batch : BatchProof} {non : NonExistenceProof}
        → First (IsNonexistFor key spec) batch.entries non
        → OffersNonexist key spec (some (CommitmentOneof.batch batch)) non

  offered_nonexist :
      {key : Bytes} {spec : ProofSpec} {one non : NonExistenceProof}
      → OffersNonexist key spec (some (CommitmentOneof.nonexist one)) non
      → (one ≡ non) × Encloses one spec key
  offered_nonexist (alone inside) = (refl, inside)

  nonexist_of_iff :
      (key : Bytes) (spec : ProofSpec) (o : Option CommitmentOneof) (non : NonExistenceProof)
      → (nonexist_of key spec o ≡ some non) ↔ OffersNonexist key spec o non
  nonexist_of_iff key spec none non = (λ e. absurd (cc), λ f. elim f [ ])
  nonexist_of_iff key spec (some (CommitmentOneof.exist ex)) non =
      (λ e. absurd (cc), λ f. elim f [ ])
  nonexist_of_iff key spec (some (CommitmentOneof.compressed c)) non =
      (λ e. absurd (cc), λ f. elim f [ ])
  nonexist_of_iff key spec (some (CommitmentOneof.nonexist one)) non =
      elim (Bool-cases (encloses one spec key)) [
        | inl inside ↦ rw inside (
          λ e.
              let is_one : one ≡ non = cc in
              subst (OffersNonexist key spec (some (CommitmentOneof.nonexist one))) is_one
                (alone ((encloses_iff one spec key).0 inside)),
          λ f. ap some (offered_nonexist f).0,
        )
        | inr outside ↦ rw outside (
          λ e. absurd (cc),
          λ f. absurd (cc (outside, (encloses_iff one spec key).1 (offered_nonexist f).1)),
        )
      ]
  nonexist_of_iff key spec (some (CommitmentOneof.batch batch)) non = (
    λ e. in_batch ((find_nonexist_iff key spec batch.entries non).0 e),
    λ f. elim f [ in_batch first ↦ (find_nonexist_iff key spec batch.entries non).1 first ],
  )

  -- `get_nonexist_proof` returns exactly the proof that stands alone, if its keys enclose the key, or the
  -- first non-existence proof of a batch whose keys do: the left key, if there is one, is strictly before
  -- the key, and the right key, if there is one, strictly behind it, in the order in which the spec
  -- compares keys (hashed, if it says so).
  pub get_nonexist_proof_iff :
      (proof : CommitmentProof) (key : Bytes) (spec : ProofSpec) (non : NonExistenceProof)
      → (get_nonexist_proof proof key spec ≡ some non) ↔ OffersNonexist key spec proof.proof non
  unfolding get_nonexist_proof
  get_nonexist_proof_iff proof key spec non = nonexist_of_iff key spec proof.proof non

  module _ (laws : ProstLaws prost) where
    prehash_or_default-eq :
        (leaf_spec : Option LeafOp)
        → prehash_or_default leaf_spec ≡ prost.hash_op (prehash_key_of leaf_spec)
    prehash_or_default-eq none = sym (laws.hash_op_of_i32 no_hash)
    prehash_or_default-eq (some leaf_spec) = refl

    -- The key that `get_nonexist_proof` compares is the one that `verify_non_existence` compares.
    pub lookup_key-eq :
        (spec : ProofSpec) (key : Bytes) → lookup_key spec key ≡ key_for_comparison spec key
    unfolding lookup_key key_for_comparison
    lookup_key-eq spec key = elim (Bool-cases spec.prehash_key_before_comparison) [
      | inl pre ↦ rw pre (ap (λ op. do_hash op key) (prehash_or_default-eq spec.leaf_spec))
      | inr raw ↦ rw raw
    ]
