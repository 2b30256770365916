-- ===== src/Verify/Tree/Descent.antt =====
-- An existence proof of rust/src/verify.rs followed from the root down through a tree with that root.
use ics.Prelude.{ℕ, suc, ◌-◌, ◌<◌, ◌≡◌, refl, sym, ap, ◌∙◌, List, [], ◌∷◌, ◌++◌, length, reverse}
use ics.Prelude.Bytes.{Bytes}
use ics.Prelude.Numbered.{join, from}
use ics.Prelude.Result.{ok}
use ics.Proto.Types.{LeafOp, InnerOp, InnerSpec}
use ics.Proto.Prost.{Prost}
use ics.Host.{HostFunctionsProvider}
use ics.Ops.Binding.{Collides, inner_image, LeafCollides, leaf_image}
use ics.Verify.Existence.Laws.{step_hash, Climbs, arrived, climb}
use ics.Verify.Tree.{Tree, leaf, node, HasHash, hash_of}
use mathlib.Core.List.{reverse-cons}

-- A step that stands over child `b` of a node with a header and children of these hashes.
pub record StandsAt (n : ℕ) (step : InnerOp) (b : ℕ) (header : Bytes) (hashes : ℕ → Bytes)
    : Type 0 where
  pub branch-lt : b < n
  pub prefix : step.prefix ≡ header ++ join b hashes
  pub suffix : step.suffix ≡ join (n - 1 - b) (from (suc b) hashes)

module _ ⦃prost : Prost⦄ ⦃host : HostFunctionsProvider⦄ where
  -- The hash that a path, read from the root, makes of a leaf's.
  abbrev pub rise : List InnerOp → Bytes → Bytes
  rise [] hash = hash
  rise (step ∷ path) hash = step_hash step (rise path hash)

  rise-append :
      (path : List InnerOp) (step : InnerOp) (hash : Bytes)
      → rise (path ++ step ∷ []) hash ≡ rise path (step_hash step hash)
  rise-append [] step hash = refl
  rise-append (p ∷ path) step hash = ap (step_hash p) (rise-append path step hash)

  pub Climbs-rise :
      (path : List InnerOp) (hash root : Bytes)
      → Climbs path hash root
      → root ≡ rise (reverse path) hash
  Climbs-rise [] hash root arrived = refl
  Climbs-rise (step ∷ path) hash root (climb _ up) =
      Climbs-rise path (step_hash step hash) root up
      ∙ sym (rise-append (reverse path) step hash)
      ∙ ap (λ p. rise p hash) (sym (reverse-cons step path))

  module _ (op : LeafOp) (inner : InnerSpec) (n size min : ℕ) where
    -- A path, read from the root, leads down the tree to a pair.
    pub data Descends : Tree → List InnerOp → Bytes → Bytes → Type 0 where
      arrives : {k v key value : Bytes} → k ≡ key → v ≡ value → Descends (leaf k v) [] key value
      steps :
          {header key value : Bytes} {child : ℕ → Tree} {step : InnerOp} {path : List InnerOp}
          (b : ℕ) (hashes : ℕ → Bytes)
          → length header ≡ min
          → ((i : ℕ) → i < n → HasHash op inner n size min (child i) (hashes i))
          → ((i : ℕ) → i < n → length (hashes i) ≡ size)
          → StandsAt n step b header hashes
          → Descends (child b) path key value
          → Descends (node header child) (step ∷ path) key value

    -- A text that is hashed along a path over a leaf's text.
    pub data PathText (over : Bytes) : List InnerOp → Bytes → Type 0 where
      leaf_text : {text : Bytes} → text ≡ over → PathText over [] text
      step_text :
          {step : InnerOp} {path : List InnerOp} {text : Bytes}
          → text ≡ inner_image step (rise path (hash_of inner over))
          → PathText over (step ∷ path) text
      below :
          {step : InnerOp} {path : List InnerOp} {text : Bytes}
          → PathText over path text
          → PathText over (step ∷ path) text

    -- A text that is hashed in a tree.
    pub data TreeText : Tree → Bytes → Type 0 where
      pair_text : {k v text : Bytes} → leaf_image op k v ≡ ok text → TreeText (leaf k v) text
      node_text :
          {header text : Bytes} {child : ℕ → Tree} (hashes : ℕ → Bytes)
          → ((i : ℕ) → i < n → HasHash op inner n size min (child i) (hashes i))
          → text ≡ header ++ join n hashes
          → TreeText (node header child) text
      in_child :
          {header text : Bytes} {child : ℕ → Tree} (i : ℕ)
          → i < n
          → TreeText (child i) text
          → TreeText (node header child) text

    -- The tree holds the pair at one of its leaves.
    pub data HoldsPair : Tree → Bytes → Bytes → Type 0 where
      itself : {k v : Bytes} → HoldsPair (leaf k v) k v
      in_child :
          {header k v : Bytes} {child : ℕ → Tree} (i : ℕ)
          → i < n
          → HoldsPair (child i) k v
          → HoldsPair (node header child) k v

    -- The ways in which a path over a pair can have the root of a tree without leading to the pair.
    pub data Clash (t : Tree) (path : List InnerOp) (key value text : Bytes) : Type 0 where
      texts :
          (x y : Bytes)
          → PathText text path x
          → TreeText t y
          → Collides (hash_of inner) x y
          → Clash t path key value text
      pairs :
          (k v : Bytes)
          → HoldsPair t k v
          → LeafCollides op k v key value
          → Clash t path key value text
      fills_hole :
          (x : Bytes)
          → PathText text path x
          → hash_of inner x ≡ inner.empty_child
          → Clash t path key value text

    pub Clash-child :
        {child : ℕ → Tree} {header : Bytes} {step : InnerOp} {path : List InnerOp}
        {key value text : Bytes} (b : ℕ)
        → b < n
        → Clash (child b) path key value text
        → Clash (node header child) (step ∷ path) key value text
    Clash-child b h (texts x y p q c) = texts x y (below p) (in_child b h q) c
    Clash-child b h (pairs k v p c) = pairs k v (in_child b h p) c
    Clash-child b h (fills_hole x p e) = fills_hole x (below p) e
