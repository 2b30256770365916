-- ===== src/Verify/Tree/Steps.antt =====
-- The step of a proof over one child of a node, and paths with a step on top, for the checks of
-- rust/src/verify.rs.
use ics.Prelude.{
  ℕ, suc, ◌+◌, ◌-◌, ◌*◌, ◌%◌, ◌≤◌, ◌<◌, ◌≡◌, refl, sym, ap, ◌∙◌, subst, false, some, List, [], ◌∷◌,
  ◌++◌, length, is_empty, arith, length-append,
}
use ics.Prelude.Bytes.{Bytes}
use ics.Prelude.Numbered.{join, from, join_split, length-join, from-at, Memᴰ-join}
use ics.Prelude.Result.{ok, >>=-eq-ok}
use ics.Proto.Types.{LeafOp, InnerOp, InnerSpec, ProofSpec, ExistenceProof}
use ics.Proto.Prost.{Prost}
use ics.Host.{HostFunctionsProvider}
use ics.Ops.{apply_leaf, prepare_leaf_data}
use ics.Ops.Binding.{inner_image, prepare_leaf_data-eq-ok}
use ics.Verify.Shape.{as_usize-size}
use ics.Verify.Conformance.Laws.{Begins, Begins-of_length_le, IsSpecInner}
use ics.Verify.Existence.Laws.{step_hash, Climbs, arrived, climb, FitsChild, HashesFit}
use ics.Verify.Tree.{Tree, entries, hole, leaf, node}
use ics.Verify.Tree.Descent.{HoldsPair, itself, in_child}
use ics.Verify.Tree.Refinement.{IsUniform}
use mathlib.Core.List.{append_assoc, Memᴰ}
use native.Mathlib.Nat.{mul-mod_left, mul-le-mul_right}

pub filled : (bytes : Bytes) → 0 < length bytes → is_empty bytes ≡ false
filled [] h = absurd (omega arith)
filled (b ∷ bytes) h = refl

-- The proof of a pair with the leaf operation of the spec.
abbrev pub plain_proof : LeafOp → Bytes → Bytes → List InnerOp → ExistenceProof
plain_proof op key value path = record { key = key; value = value; leaf = some op; path = path }

last_le : (b n : ℕ) → b < n → b ≤ n - 1
last_le b n h = omega arith

module _ ⦃prost : Prost⦄ ⦃host : HostFunctionsProvider⦄ where
  -- A step put on top of a path.
  pub Climbs-top :
      (path : List InnerOp) (step : InnerOp) (hash root : Bytes)
      → Climbs path hash root
      → is_empty root ≡ false
      → Climbs (path ++ step ∷ []) hash (step_hash step root)
  Climbs-top [] step hash root arrived filled = climb filled arrived
  Climbs-top (p ∷ path) step hash root (climb h up) filled =
      climb h (Climbs-top path step (step_hash p hash) root up filled)

  pub apply_leaf-filled :
      (op : LeafOp) (key value out : Bytes)
      → apply_leaf op key value ≡ ok out
      → (is_empty key ≡ false) × (is_empty value ≡ false)
  unfolding apply_leaf
  apply_leaf-filled op key value out e =
      let len = prost.length_op op.length in
      let (prekey, pk, e₁) =
        >>=-eq-ok (prepare_leaf_data (prost.hash_op op.prehash_key) len key) _ e in
      let (preval, pv, _) =
        >>=-eq-ok (prepare_leaf_data (prost.hash_op op.prehash_value) len value) _ e₁ in
      (
        (prepare_leaf_data-eq-ok (prost.hash_op op.prehash_key) len key prekey pk).0,
        (prepare_leaf_data-eq-ok (prost.hash_op op.prehash_value) len value preval pv).0,
      )

  pub HashesFit-top :
      (spec : _) (path : List InnerOp) (step : InnerOp) (hash root : Bytes)
      → Climbs path hash root
      → HashesFit spec path hash
      → FitsChild spec (step_hash step root)
      → HashesFit spec (path ++ step ∷ []) hash
  HashesFit-top spec [] step hash root arrived f top = (top, tt)
  HashesFit-top spec (p ∷ path) step hash root (climb h up) (here, f) top =
      (here, HashesFit-top spec path step (step_hash p hash) root up f top)

module _ ⦃prost : Prost⦄ ⦃host : HostFunctionsProvider⦄ (spec : ProofSpec) (op : LeafOp)
    (inner : InnerSpec) (n size min : ℕ) (u : IsUniform spec op inner n size min) where
  pub HoldsPair-of_Mem :
      (t : Tree) {key value : Bytes}
      → Memᴰ (key, value) (entries n t)
      → HoldsPair op inner n size min t key value
  HoldsPair-of_Mem hole m = elim m [ ]
  HoldsPair-of_Mem (leaf k v) (Memᴰ.head e) =
      subst (λ p. HoldsPair op inner n size min (leaf k v) p.0 p.1) (sym e) itself
  HoldsPair-of_Mem (leaf k v) (Memᴰ.tail m) = elim m [ ]
  HoldsPair-of_Mem (node header child) m =
      let (i, h, here) = Memᴰ-join n (λ i. entries n (child i)) m in
      in_child i h (HoldsPair-of_Mem (child i) here)

  -- The step that stands over child `b` of a node.
  abbrev pub step_over : Bytes → (ℕ → Bytes) → ℕ → InnerOp
  step_over header hashes b = record {
    hash = inner.hash;
    prefix = header ++ join b hashes;
    suffix = join (n - 1 - b) (from (suc b) hashes);
  }

  pub step_over-image :
      (header : Bytes) (hashes : ℕ → Bytes) (b : ℕ)
      → b < n
      → inner_image (step_over header hashes b) (hashes b) ≡ header ++ join n hashes
  step_over-image header hashes b h =
      append_assoc (header ++ join b hashes) (hashes b) _
      ∙ append_assoc header (join b hashes) _
      ∙ ap (λ t. header ++ t) (sym (join_split n b (n - 1 - b) hashes (omega (arith, h))))

  pub length-FitsChild : (hash : Bytes) → length hash ≡ size → FitsChild spec.inner_spec hash
  length-FitsChild hash long =
      subst (λ o. FitsChild o hash) (sym u.has_inner)
        (λ wide. omega (arith, long, as_usize-size u.sized))

  pub step_over-form :
      (header : Bytes) (hashes : ℕ → Bytes) (b : ℕ)
      → b < n
      → length header ≡ min
      → ¬ Begins op.prefix header
      → ((i : ℕ) → i < n → length (hashes i) ≡ size)
      → IsSpecInner (step_over header hashes b) op inner n size min min
  step_over-form header hashes b h head no_leaf sizes =
      let front : length (header ++ join b hashes) ≡ min + b * size = omega (
        arith,
        head,
        length-append header (join b hashes),
        length-join b size hashes (λ i k. sizes i (omega (arith, h))),
      ) in
      record {
        hash = refl;
        no_leaf = λ (rest, e). no_leaf (
            Begins-of_length_le op.prefix header rest (join b hashes) (omega (arith, u.short, head))
              (sym e));
        prefix_min = omega (arith, front);
        prefix_max = omega (arith, front, mul-le-mul_right size (last_le b n h));
        suffix_whole =
            ap (λ m. m % size)
              (length-join (n - 1 - b) size (from (suc b) hashes) (λ i k.
                ap length (from-at (suc b) i hashes) ∙ sizes (suc b + i) (omega (arith, k, h))))
            ∙ mul-mod_left (n - 1 - b) size;
      }
