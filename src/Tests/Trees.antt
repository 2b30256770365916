-- ===== src/Tests/Trees.antt =====
-- The sample tree as a tree, with the theorems about what a tree holds.
use ics.Prelude.{
  ℕ, zero, suc, ◌+◌, ◌<◌, ◌≡◌, ◌≢◌, refl, sym, ap, ◌∙◌, ◌⊎◌, Option, none, some, List, [], ◌∷◌,
  ◌++◌, length, arith,
}
use ics.Prelude.Bytes.{Bytes}
use ics.Ops.{apply_leaf}
use ics.Ops.Binding.{FitsLength}
use ics.Api.Specs.{tendermint_inner, tendermint_leaf, tendermint_spec}
use ics.Verify.Tree.{Tree, leaf, node, entries, HasHash, pair, branch, IsSorted}
use ics.Verify.Tree.Refinement.{
  IsUniform, ProofClash, SideClash, verify_existence_refines, verify_non_existence_refines,
}
use ics.Verify.Tree.Order.{Lacks}
use mathlib.Core.List.{append-nil, Memᴰ}
use ics.Prelude.{false}
use ics.Api.Specs.{is_iavl_spec}
use ics.Proto.Types.{InnerOp}
use ics.Verify.Existence.{verify_existence}
use ics.Verify.Tree.Completeness.{verify_existence_complete}
use ics.Prelude.Result.{ok}
use ics.Verify.Tree.Neighbors.{IsFull}
use ics.Verify.Tree.Absence.{ProvesAbsent, verify_non_existence_complete}
use ics.Verify.NonExistence.{key_for_comparison}
use ics.Prelude.{All}
use ics.Verify.NonExistence.{verify_non_existence}
use ics.Tests.{sample_prost, sample_host, sample_laws}
use ics.Tests.Samples.{
  exist_1, exist_3, exist_5, absent_4, hash_text, leaf_hash, node_hash, node_a, node_b, sample_root,
  tendermint_sized, tendermint_branches,
}
use ics.Tests.Runs.{accepts_1, accepts_absent_4}

length-hash_text : (text : Bytes) → length (hash_text text) ≡ 32
length-hash_text text = refl

tendermint_uniform : IsUniform tendermint_spec tendermint_leaf tendermint_inner 2 32 1
unfolding ics.Tests.sample_prost ics.Tests.sample_host ics.Ops.do_hash
tendermint_uniform = record {
  has_leaf = refl;
  has_inner = refl;
  sized = tendermint_sized;
  framing = tt;
  same_hash = refl;
  short = omega arith;
  hash_size = λ text. length-hash_text text;
}

abbrev two {ℓ} : {A : Type ℓ} → A → A → ℕ → A
two a b zero = a
two a b (suc i) = b

abbrev sample_leaf : ℕ → Tree
sample_leaf key = leaf (key ∷ []) (key ∷ key ∷ [])

abbrev sample_node : Tree → Tree → Tree
sample_node left right = node (1 ∷ []) (two left right)

abbrev sample_tree : Tree
sample_tree =
    sample_node (sample_node (sample_leaf 1) (sample_leaf 3))
      (sample_node (sample_leaf 5) (sample_leaf 7))

abbrev HashesTo : Tree → Bytes → Type 0
HashesTo = HasHash tendermint_leaf tendermint_inner 2 32 1

long_hash : (hash : Bytes) → length hash ≡ 32 → hash ≢ []
long_hash hash long e = omega (arith, ap length e, long)

leaf-HasHash : (key : ℕ) → HashesTo (sample_leaf key) (leaf_hash key)
unfolding ics.Tests.sample_prost ics.Tests.sample_host ics.Ops.do_hash ics.Ops.do_length
    ics.Ops.prepare_leaf_data ics.Ops.apply_leaf
leaf-HasHash key = pair (omega arith, omega arith) refl (long_hash (leaf_hash key) refl)

node-HasHash :
    (left right : Tree) (a b : Bytes)
    → length a ≡ 32
    → length b ≡ 32
    → HashesTo left a
    → HashesTo right b
    → HashesTo (sample_node left right) (node_hash a b)
unfolding ics.Tests.sample_prost ics.Tests.sample_host ics.Ops.do_hash
node-HasHash left right a b la lb h k =
    branch (two a b) refl (λ (rest, e). cc) below sizes
      (ap (λ t. hash_text (1 ∷ a ++ t)) (sym (append-nil b))) (long_hash (node_hash a b) refl)
  where
    below : (i : ℕ) → i < 2 → HashesTo (two left right i) (two a b i)
    below zero lt = h
    below (suc i) lt = k

    sizes : (i : ℕ) → i < 2 → length (two a b i) ≡ 32
    sizes zero lt = la
    sizes (suc i) lt = lb

sample_tree-HasHash : HashesTo sample_tree sample_root
sample_tree-HasHash =
    node-HasHash _ _ node_a node_b refl refl
      (node-HasHash _ _ (leaf_hash 1) (leaf_hash 3) refl refl (leaf-HasHash 1) (leaf-HasHash 3))
      (node-HasHash _ _ (leaf_hash 5) (leaf_hash 7) refl refl (leaf-HasHash 5) (leaf-HasHash 7))

sample_tree-IsSorted : IsSorted tendermint_spec (entries 2 sample_tree)
unfolding ics.Prelude.Bytes.bytes_lt ics.Verify.NonExistence.key_for_comparison
sample_tree-IsSorted = ((refl, (refl, (refl, tt))), ((refl, (refl, tt)), ((refl, tt), (tt, tt))))

exist_for-IsPlain : (key : ℕ) → FitsLength tendermint_leaf (key ∷ []) (key ∷ key ∷ [])
unfolding ics.Tests.sample_prost ics.Tests.sample_host ics.Ops.do_hash
exist_for-IsPlain key = (omega arith, omega arith)

verify_existence_refines_example :
    Memᴰ (1 ∷ [], 1 ∷ 1 ∷ []) (entries 2 sample_tree)
    ⊎ ProofClash sample_laws tendermint_spec tendermint_leaf tendermint_inner 2 32 1
        tendermint_uniform sample_tree exist_1
verify_existence_refines_example =
    verify_existence_refines sample_laws tendermint_spec tendermint_leaf tendermint_inner 2 32 1
      tendermint_uniform sample_tree exist_1 sample_root (1 ∷ []) (1 ∷ 1 ∷ []) sample_tree-HasHash
      (refl, exist_for-IsPlain 1) accepts_1

verify_non_existence_refines_example :
    Lacks tendermint_spec (4 ∷ []) (entries 2 sample_tree)
    ⊎ (SideClash sample_laws tendermint_spec tendermint_leaf tendermint_inner 2 32 1
          tendermint_uniform sample_tree
          (some exist_3)
        ⊎ SideClash sample_laws tendermint_spec tendermint_leaf tendermint_inner 2 32 1
            tendermint_uniform sample_tree
            (some exist_5))
verify_non_existence_refines_example =
    verify_non_existence_refines sample_laws tendermint_spec tendermint_leaf tendermint_inner 2 32 1
      tendermint_uniform tendermint_branches sample_tree absent_4 sample_root (4 ∷ [])
      sample_tree-HasHash sample_tree-IsSorted (refl, exist_for-IsPlain 3)
      (refl, exist_for-IsPlain 5) accepts_absent_4

no_iavl : is_iavl_spec tendermint_spec ≡ false
unfolding ics.Api.Specs.is_iavl_spec
no_iavl = refl

verify_existence_complete_example :
    (path : List InnerOp) × (verify_existence
        (record { key = 3 ∷ []; value = 3 ∷ 3 ∷ []; leaf = some tendermint_leaf; path = path })
        tendermint_spec
        sample_root
        (3 ∷ [])
        (3 ∷ 3 ∷ [])
      ≡ ok tt)
verify_existence_complete_example =
    verify_existence_complete tendermint_spec tendermint_leaf tendermint_inner 2 32 1
      tendermint_uniform no_iavl sample_tree sample_root (3 ∷ []) (3 ∷ 3 ∷ []) sample_tree-HasHash
      refl (Memᴰ.tail (Memᴰ.head refl))

sample_node-IsFull :
    (left right : Tree) → IsFull 2 left → IsFull 2 right → IsFull 2 (sample_node left right)
sample_node-IsFull left right a b zero h = a
sample_node-IsFull left right a b (suc i) h = b

sample_tree-IsFull : IsFull 2 sample_tree
sample_tree-IsFull =
    sample_node-IsFull (sample_node (sample_leaf 1) (sample_leaf 3))
      (sample_node (sample_leaf 5) (sample_leaf 7))
      (sample_node-IsFull (sample_leaf 1) (sample_leaf 3) tt tt)
      (sample_node-IsFull (sample_leaf 5) (sample_leaf 7) tt tt)

missing_4 :
    All
      (λ entry.
        key_for_comparison tendermint_spec entry.0 ≢ key_for_comparison tendermint_spec (4 ∷ []))
      (entries 2 sample_tree)
unfolding ics.Verify.NonExistence.key_for_comparison
missing_4 = ((λ e. cc), ((λ e. cc), ((λ e. cc), ((λ e. cc), tt))))

verify_non_existence_complete_example : ProvesAbsent tendermint_spec sample_root (4 ∷ [])
verify_non_existence_complete_example =
    verify_non_existence_complete tendermint_spec tendermint_leaf tendermint_inner 2 32 1
      tendermint_uniform no_iavl tendermint_branches sample_tree sample_root (4 ∷ [])
      sample_tree-HasHash sample_tree-IsFull refl missing_4
