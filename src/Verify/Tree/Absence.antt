-- ===== src/Verify/Tree/Absence.antt =====
-- Every key that is missing from a tree without absent children has a proof that rust/src/verify.rs
-- accepts: with the last pair below it and the first pair above it as neighbours.
use ics.Prelude.{
  ℕ, ◌≡◌, ◌≢◌, sym, subst, false, Option, none, some, All, reverse, All-imp, All-reverse,
}
use ics.Prelude.Bytes.{Bytes, bytes_lt_total}
use ics.Prelude.Int.{pos}
use ics.Prelude.Adjacent.{Starts, Ends, Adjoins, at_front, at_back, within, slot}
use ics.Prelude.Result.{ok}
use ics.Proto.Types.{LeafOp, InnerSpec, ProofSpec, ExistenceProof}
use ics.Proto.Prost.{Prost}
use ics.Host.{HostFunctionsProvider}
use ics.Api.Specs.{is_iavl_spec}
use ics.Verify.Neighbor.Fork.{Forks, AreNeighbors}
use ics.Verify.Padding.Order.{HoldsBranches}
use ics.Verify.NonExistence.{key_for_comparison, verify_non_existence}
use ics.Verify.NonExistence.Compared.{IsSmaller-iff}
use ics.Verify.NonExistence.Laws.{
  LeftBelow, RightAbove, IsGap, between, after_last, before_first, verify_non_existence_iff,
}
use ics.Verify.Tree.{Tree, entries, HasHash}
use ics.Verify.Tree.Order.{IsBefore}
use ics.Verify.Tree.Refinement.{IsUniform}
use ics.Verify.Tree.Steps.{plain_proof}
use ics.Verify.Tree.Completeness.{Honest-accepted}
use ics.Verify.Tree.Neighbors.{
  IsFull, entries-filled, IsLast-path, IsFirst-path, NextTo, next_paths,
}
use mathlib.Core.List.{reverse-reverse}

-- An accepted proof that the key is absent.
abbrev pub ProvesAbsent :
    ⦃prost : Prost⦄ → ⦃host : HostFunctionsProvider⦄ → ProofSpec → Bytes → Bytes → Type 0
ProvesAbsent spec root key =
    (left : Option ExistenceProof) × (right : Option ExistenceProof) × (verify_non_existence
        (record { key = key; left = left; right = right }) spec root key
      ≡ ok tt)

module _ ⦃prost : Prost⦄ ⦃host : HostFunctionsProvider⦄ (spec : ProofSpec) (op : LeafOp)
    (inner : InnerSpec) (n size min : ℕ) (u : IsUniform spec op inner n size min)
    (other : is_iavl_spec spec ≡ false) (order : HoldsBranches inner n) where
  NextTo-AreNeighbors :
      {root : Bytes} {l r : Bytes × Bytes}
      (p : NextTo spec op inner n size min u other order root l r)
      → AreNeighbors u.sized order (reverse p.left) (reverse p.right)
  NextTo-AreNeighbors p = record {
    fork = p.fork;
    forks =
        subst (λ path. Forks path (reverse (reverse p.right)) p.fork) (sym (reverse-reverse p.left))
          (subst (λ path. Forks p.left path p.fork) (sym (reverse-reverse p.right)) p.forks);
    adjacent = p.adjacent;
    keeps_right = p.keeps_right;
    keeps_left = p.keeps_left;
  }

  module _ (key : Bytes) {t : Tree} {root : Bytes} (rooted : HasHash op inner n size min t root)
      (full : IsFull n t) (shallow : spec.min_depth ≡ pos 0) where
    accepted :
        (left right : Option ExistenceProof)
        → LeftBelow left spec root key
        → RightAbove right spec root key
        → IsGap u.sized order left right
        → ProvesAbsent spec root key
    accepted left right below above gap = (
      left,
      right,
      (verify_non_existence_iff u.sized order _ spec root key u.has_inner).1 (below, above, gap),
    )

    proof_before :
        (r : Bytes × Bytes)
        → Starts r (entries n t)
        → IsBefore spec key r.0
        → ProvesAbsent spec root key
    proof_before r starts above =
        let (down, b, keeps) =
          IsFirst-path spec op inner n size min u other order rooted full starts in
        accepted none (some (plain_proof op r.0 r.1 (reverse down))) tt
          (
            Honest-accepted spec op inner n size min u other shallow b,
            (IsSmaller-iff spec key r.0).1 above,
          )
          (before_first (All-reverse _ down keeps))

    proof_behind :
        (l : Bytes × Bytes)
        → Ends l (entries n t)
        → IsBefore spec l.0 key
        → ProvesAbsent spec root key
    proof_behind l ends below =
        let (down, b, keeps) =
          IsLast-path spec op inner n size min u other order rooted full ends in
        accepted (some (plain_proof op l.0 l.1 (reverse down))) none
          (
            Honest-accepted spec op inner n size min u other shallow b,
            (IsSmaller-iff spec l.0 key).1 below,
          )
          tt (after_last (All-reverse _ down keeps))

    proof_between :
        (l r : Bytes × Bytes)
        → Adjoins l r (entries n t)
        → IsBefore spec l.0 key
        → IsBefore spec key r.0
        → ProvesAbsent spec root key
    proof_between l r adjoins below above =
        let p = next_paths spec op inner n size min u other order rooted full adjoins in
        accepted (some (plain_proof op l.0 l.1 (reverse p.left)))
          (some (plain_proof op r.0 r.1 (reverse p.right)))
          (
            Honest-accepted spec op inner n size min u other shallow p.left_honest,
            (IsSmaller-iff spec l.0 key).1 below,
          )
          (
            Honest-accepted spec op inner n size min u other shallow p.right_honest,
            (IsSmaller-iff spec key r.0).1 above,
          )
          (between (NextTo-AreNeighbors p))

  -- For a uniform spec other than the IAVL one without a minimum depth, whose child order names every
  -- branch, and a tree with the root and no absent children, every key that differs from the key of
  -- every pair in the form that is compared has a proof that `verify_non_existence` accepts.
  pub verify_non_existence_complete :
      (t : Tree) (root key : Bytes)
      → HasHash op inner n size min t root
      → IsFull n t
      → spec.min_depth ≡ pos 0
      → All (λ entry. key_for_comparison spec entry.0 ≢ key_for_comparison spec key) (entries n t)
      → ProvesAbsent spec root key
  verify_non_existence_complete t root key rooted full shallow missing =
      elim (slot (λ entry. IsBefore spec entry.0 key) (λ entry. IsBefore spec key entry.0)
        (entries n t) (entries-filled n t u.sized.has_child full)
        (All-imp _
          (λ entry. bytes_lt_total (key_for_comparison spec entry.0) (key_for_comparison spec key))
          (entries n t) missing)) [
            | at_front r starts above ↦ proof_before key rooted full shallow r starts above
            | at_back l ends below ↦ proof_behind key rooted full shallow l ends below
            | within l r adjoins below above ↦
                proof_between key rooted full shallow l r adjoins below above
          ]
