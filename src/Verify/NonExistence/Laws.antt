-- ===== src/Verify/NonExistence/Laws.antt =====
-- `verify_non_existence` of rust/src/verify.rs, against a description of neighbours in a tree.
use ics.Prelude.{ℕ, ◌≡◌, refl, sym, ◌↔◌, ◌≢◌, Option, none, some, reverse, All, subst}
use ics.Prelude.Bytes.{Bytes, bytes_lt_irrefl, bytes_lt_trans}
use ics.Prelude.Result.{
  Result, ok, err, panic, ◌>>◌, ensure_iff, >>-eq-ok, >>-eq-ok_of, ensure-ne-panic,
  left_not_before_key, right_not_after_key, >>=-ne-panic,
}
use ics.Proto.Types.{InnerSpec, ProofSpec, ExistenceProof, NonExistenceProof}
use ics.Proto.Prost.{Prost}
use ics.Host.{HostFunctionsProvider}
use ics.Verify.Shape.{IsSized}
use ics.Verify.Padding.Order.{HoldsBranches}
use ics.Verify.Existence.{verify_existence}
use ics.Verify.Existence.Safe.{HasI32Size, HasI32Size-of_IsSized, verify_existence-ne-panic}
use ics.Verify.Neighbor.Edge.{
  IsFirst, IsLast, ensure_left_most_iff, ensure_right_most_iff, ensure_left_most-ne-panic,
  ensure_right_most-ne-panic,
}
use ics.Verify.Neighbor.Fork.{
  AreNeighbors, ensure_left_neighbor_iff, RunsOut, ensure_left_neighbor_panics_iff,
}
use ics.Verify.NonExistence.Compared.{IsSmaller, IsSmaller-iff}
use ics.Verify.NonExistence.{
  key_for_comparison, check_left, check_right, check_neighbors, check_neighbors_for,
  verify_non_existence,
}

module _ ⦃prost : Prost⦄ ⦃host : HostFunctionsProvider⦄ where
  -- The left proof, if there is one, is accepted for the root, with a smaller key.
  abbrev pub LeftBelow : Option ExistenceProof → ProofSpec → Bytes → Bytes → Type 0
  LeftBelow none spec root key = Unit {0}
  LeftBelow (some left) spec root key =
      (verify_existence left spec root left.key left.value ≡ ok tt) × IsSmaller spec left.key key

  -- The right proof, if there is one, is accepted for the root, with a larger key.
  abbrev pub RightAbove : Option ExistenceProof → ProofSpec → Bytes → Bytes → Type 0
  RightAbove none spec root key = Unit {0}
  RightAbove (some right) spec root key =
      (verify_existence right spec root right.key right.value ≡ ok tt)
      × IsSmaller spec key right.key

  check_left_iff :
      (left : Option ExistenceProof) (spec : ProofSpec) (root key : Bytes)
      → (check_left left spec root key ≡ ok tt) ↔ LeftBelow left spec root key
  unfolding check_left
  check_left_iff none spec root key = (λ e. tt, λ u. refl)
  check_left_iff (some left) spec root key = (
    λ e.
        let (v, e₁) = >>-eq-ok (verify_existence left spec root left.key left.value) _ e in
        (v, (IsSmaller-iff spec left.key key).1 ((ensure_iff _ left_not_before_key).0 e₁)),
    λ (v, less).
        >>-eq-ok_of _ _ v
          ((ensure_iff _ left_not_before_key).1 ((IsSmaller-iff spec left.key key).0 less)),
  )

  check_right_iff :
      (right : Option ExistenceProof) (spec : ProofSpec) (root key : Bytes)
      → (check_right right spec root key ≡ ok tt) ↔ RightAbove right spec root key
  unfolding check_right
  check_right_iff none spec root key = (λ e. tt, λ u. refl)
  check_right_iff (some right) spec root key = (
    λ e.
        let (v, e₁) = >>-eq-ok (verify_existence right spec root right.key right.value) _ e in
        (v, (IsSmaller-iff spec key right.key).1 ((ensure_iff _ right_not_after_key).0 e₁)),
    λ (v, less).
        >>-eq-ok_of _ _ v
          ((ensure_iff _ right_not_after_key).1 ((IsSmaller-iff spec key right.key).0 less)),
  )

  check_left-ne-panic :
      (left : Option ExistenceProof) (spec : ProofSpec) (root key : Bytes)
      → HasI32Size spec.inner_spec
      → check_left left spec root key ≢ panic
  unfolding check_left
  check_left-ne-panic none spec root key range = λ e. cc
  check_left-ne-panic (some left) spec root key range =
      >>=-ne-panic _ _ (verify_existence-ne-panic left spec root left.key left.value range)
        (λ _ _. ensure-ne-panic _ left_not_before_key)

  check_right-ne-panic :
      (right : Option ExistenceProof) (spec : ProofSpec) (root key : Bytes)
      → HasI32Size spec.inner_spec
      → check_right right spec root key ≢ panic
  unfolding check_right
  check_right-ne-panic none spec root key range = λ e. cc
  check_right-ne-panic (some right) spec root key range =
      >>=-ne-panic _ _ (verify_existence-ne-panic right spec root right.key right.value range)
        (λ _ _. ensure-ne-panic _ right_not_after_key)

  IsSmaller-trans :
      (spec : ProofSpec) (a b c : Bytes)
      → IsSmaller spec a b
      → IsSmaller spec b c
      → IsSmaller spec a c
  IsSmaller-trans spec a b c p q = (IsSmaller-iff spec a c).1 (
      bytes_lt_trans (key_for_comparison spec a) (key_for_comparison spec b)
        (key_for_comparison spec c) ((IsSmaller-iff spec a b).0 p) ((IsSmaller-iff spec b c).0 q))

  IsSmaller-ne : (spec : ProofSpec) (a b : Bytes) → IsSmaller spec a b → a ≢ b
  IsSmaller-ne spec a b less same = cc (
    bytes_lt_irrefl (key_for_comparison spec b),
    (IsSmaller-iff spec b b).0 (subst (λ k. IsSmaller spec k b) same less),
  )

  -- In an accepted proof with both neighbours, whatever the spec, the left key is strictly before the
  -- key that is shown absent, and that one strictly before the right key, in the order in which the spec
  -- compares keys; so the left key is before the right one, and no two of the three are equal.
  pub verify_non_existence_separates :
      (proof : NonExistenceProof) (spec : ProofSpec) (root key : Bytes)
      (left right : ExistenceProof)
      → verify_non_existence proof spec root key ≡ ok tt
      → proof.left ≡ some left
      → proof.right ≡ some right
      → IsSmaller spec left.key key
        × IsSmaller spec key right.key
        × IsSmaller spec left.key right.key
        × (left.key ≢ key)
        × (right.key ≢ key)
        × (left.key ≢ right.key)
  unfolding verify_non_existence
  verify_non_existence_separates proof spec root key left right e is_left is_right =
      let (l, e₁) = >>-eq-ok (check_left proof.left spec root key) _ e in
      let (r, _) = >>-eq-ok (check_right proof.right spec root key) _ e₁ in
      let (_, below) =
        (check_left_iff (some left) spec root key).0
          (subst (λ o. check_left o spec root key ≡ ok tt) is_left l) in
      let (_, above) =
        (check_right_iff (some right) spec root key).0
          (subst (λ o. check_right o spec root key ≡ ok tt) is_right r) in
      let across = IsSmaller-trans spec left.key key right.key below above in
      (
        below,
        above,
        across,
        IsSmaller-ne spec left.key key below,
        λ same. IsSmaller-ne spec key right.key above (sym same),
        IsSmaller-ne spec left.key right.key across,
      )

module _ {inner : InnerSpec} {n size min max : ℕ} (s : IsSized inner n size min max)
    (order : HoldsBranches inner n) where
  -- What the positions of the two proofs must be, of which one at least must be there: neighbours, if
  -- there are both; a path that keeps to the first children, if the right one is alone; a path that
  -- keeps to the last ones, if the left one is.
  pub data IsGap : Option ExistenceProof → Option ExistenceProof → Type 0 where
    between :
        {left right : ExistenceProof}
        → AreNeighbors s order left.path right.path
        → IsGap (some left) (some right)
    after_last : {left : ExistenceProof} → All (IsLast s order) left.path → IsGap (some left) none
    before_first :
        {right : ExistenceProof} → All (IsFirst s order) right.path → IsGap none (some right)

  check_neighbors_iff :
      (left right : Option ExistenceProof)
      → (check_neighbors inner left right ≡ ok tt) ↔ IsGap left right
  unfolding check_neighbors
  check_neighbors_iff none none = (λ e. absurd (cc), λ g. elim g [ ])
  check_neighbors_iff (some left) none = (
    λ e. after_last ((ensure_right_most_iff s order left.path).0 e),
    λ g. elim g [ after_last a ↦ (ensure_right_most_iff s order left.path).1 a ],
  )
  check_neighbors_iff none (some right) = (
    λ e. before_first ((ensure_left_most_iff s order right.path).0 e),
    λ g. elim g [ before_first a ↦ (ensure_left_most_iff s order right.path).1 a ],
  )
  check_neighbors_iff (some left) (some right) = (
    λ e. between ((ensure_left_neighbor_iff s order left.path right.path).0 e),
    λ g. elim g [ between a ↦ (ensure_left_neighbor_iff s order left.path right.path).1 a ],
  )

  module _ ⦃prost : Prost⦄ ⦃host : HostFunctionsProvider⦄ where
    -- For a sized inner spec whose child order names every branch, `verify_non_existence` accepts a
    -- proof exactly if it has a left or a right proof, each one that it has is accepted for the root, the
    -- left one's key is before and the right one's key behind the absent key in the order in which the
    -- spec compares keys (hashed, if it says so), and: the paths of the two are neighbours (they part at
    -- adjacent branches, below which the left one is `IsLast` and the right one `IsFirst`), or the left
    -- one is alone and all its steps are `IsLast`, or the right one is alone and all its steps are
    -- `IsFirst`. `IsFirst` is a step to the first child, or with only empty children to its left;
    -- `IsLast` is one to the last child, or to the last but one beside an empty last child.
    pub verify_non_existence_iff :
        (proof : NonExistenceProof) (spec : ProofSpec) (root key : Bytes)
        → spec.inner_spec ≡ some inner
        → (verify_non_existence proof spec root key ≡ ok tt) ↔ (
            LeftBelow proof.left spec root key
            × RightAbove proof.right spec root key
            × IsGap proof.left proof.right)
    unfolding verify_non_existence
    verify_non_existence_iff proof spec root key has_inner = (
      λ e.
          let (l, e₁) = >>-eq-ok (check_left proof.left spec root key) _ e in
          let (r, e₂) = >>-eq-ok (check_right proof.right spec root key) _ e₁ in
          (
            (check_left_iff proof.left spec root key).0 l,
            (check_right_iff proof.right spec root key).0 r,
            (check_neighbors_iff proof.left proof.right).0
                (subst (λ i. check_neighbors_for i proof ≡ ok tt) has_inner e₂),
          ),
      λ (l, r, g). rw (
        (check_left_iff proof.left spec root key).1 l,
        (check_right_iff proof.right spec root key).1 r,
        has_inner,
        (check_neighbors_iff proof.left proof.right).1 g,
      ),
    )

    check_neighbors_panics :
        (left right : Option ExistenceProof)
        → check_neighbors inner left right ≡ panic
        → (l r : ExistenceProof) × (left ≡ some l)
          × (right ≡ some r)
          × RunsOut (reverse l.path) (reverse r.path)
    unfolding check_neighbors
    check_neighbors_panics none none e = absurd (cc)
    check_neighbors_panics (some left) none e =
        absurd (ensure_right_most-ne-panic s order left.path e)
    check_neighbors_panics none (some right) e =
        absurd (ensure_left_most-ne-panic s order right.path e)
    check_neighbors_panics (some left) (some right) e = (
      left,
      right,
      refl,
      refl,
      (ensure_left_neighbor_panics_iff s order left.path right.path).0 e,
    )

    after-panic :
        {B : Type 0} (m : Result (Unit {0})) (k : Result B)
        → m ≢ panic
        → (m >> k) ≡ panic
        → (m ≡ ok tt) × (k ≡ panic)
    after-panic (ok tt) k safe e = (refl, e)
    after-panic (err x) k safe e = absurd (cc)
    after-panic panic k safe e = absurd (safe refl)

    pub verify_non_existence_panics_iff :
        (proof : NonExistenceProof) (spec : ProofSpec) (root key : Bytes)
        → spec.inner_spec ≡ some inner
        → (verify_non_existence proof spec root key ≡ panic) ↔ (
            (left right : ExistenceProof) × (proof.left ≡ some left)
            × (proof.right ≡ some right)
            × LeftBelow (some left) spec root key
            × RightAbove (some right) spec root key
            × RunsOut (reverse left.path) (reverse right.path))
    unfolding verify_non_existence
    verify_non_existence_panics_iff proof spec root key has_inner = (
      λ e.
          let range = HasI32Size-of_IsSized has_inner s in
          let (l, e₁) = after-panic _ _ (check_left-ne-panic proof.left spec root key range) e in
          let (r, e₂) = after-panic _ _ (check_right-ne-panic proof.right spec root key range) e₁ in
          let (left, right, is_left, is_right, out) =
            check_neighbors_panics proof.left proof.right
              (subst (λ i. check_neighbors_for i proof ≡ panic) has_inner e₂) in
          (
            left,
            right,
            is_left,
            is_right,
            (check_left_iff (some left) spec root key).0
                (subst (λ o. check_left o spec root key ≡ ok tt) is_left l),
            (check_right_iff (some right) spec root key).0
                (subst (λ o. check_right o spec root key ≡ ok tt) is_right r),
            out,
          ),
      λ (left, right, is_left, is_right, l, r, out).
          rw
            (
              is_left,
              is_right,
              (check_left_iff (some left) spec root key).1 l,
              (check_right_iff (some right) spec root key).1 r,
              has_inner,
            )
            (unfold check_neighbors in
              (ensure_left_neighbor_panics_iff s order left.path right.path).1 out),
    )
