-- ===== src/Verify/Tree/Gap.antt =====
-- Where the paths of rust/src/verify.rs stand in the list of a tree's pairs: a path that keeps to the
-- left leads to the first, one that keeps to the right to the last, neighbouring paths to pairs next to
-- each other.
use ics.Prelude.{
  ℕ, suc, ◌+◌, ◌-◌, ◌*◌, ◌≤◌, ◌<◌, ◌≡◌, refl, sym, ap, ◌∙◌, subst, inl, inr, List, [], ◌∷◌, ◌++◌,
  length, All, arith, take, drop, length-append,
}
use ics.Prelude.Bytes.{Bytes}
use ics.Prelude.Numbered.{join, from, from_first, join_split, length-join, join_at, join_nil}
use ics.Proto.Types.{LeafOp, InnerOp, InnerSpec}
use ics.Proto.Prost.{Prost}
use ics.Host.{HostFunctionsProvider}
use ics.Verify.Shape.{IsSized}
use ics.Verify.Neighbor.{Divergence}
use ics.Verify.Neighbor.Edge.{IsFirst, IsLast}
use ics.Verify.Neighbor.Fork.{Forks, apart, shared, IsLeftStep}
use ics.Verify.Padding.Order.{HoldsBranches, IsAt}
use ics.Verify.Tree.{Tree, hole, leaf, node, entries, HasHash, absent, pair, branch}
use ics.Verify.Tree.Descent.{StandsAt, Descends, arrives, steps}
use mathlib.Core.List.{append_assoc, append-nil}
use native.Mathlib.Nat.{le_of_mul-le-mul_right}

weave {ℓ} :
    {A : Type ℓ} (p xs : List A) (a : A) (q : List A)
    → p ++ ((xs ++ a ∷ []) ++ q) ≡ (p ++ xs) ++ a ∷ q
weave p xs a q = ap (λ t. p ++ t) (append_assoc xs (a ∷ []) q) ∙ sym (append_assoc p xs (a ∷ q))

-- The pairs of numbered trees.
abbrev listed : ℕ → (ℕ → Tree) → ℕ → List (Bytes × Bytes)
listed n child i = entries n (child i)

module _ ⦃prost : Prost⦄ ⦃host : HostFunctionsProvider⦄ (op : LeafOp) (inner : InnerSpec)
    (n size min : ℕ) where
  -- Any path leads to one of the pairs.
  pub some_entry :
      {t : Tree} {path : List InnerOp} {key value : Bytes}
      → Descends op inner n size min t path key value
      → (before : List (Bytes × Bytes)) × (after : List (Bytes × Bytes)) × (entries n t
          ≡ before ++ (key, value) ∷ after)
  some_entry (arrives ek ev) = ([], [], λ i. (ek i, ev i) ∷ [])
  some_entry {key = key} {value = value}
        (steps {child = child} b hashes head below sizes stands d) =
      let L = listed n child in
      let (before, after, e) = some_entry d in
      let rest = join (n - 1 - b) (from (suc b) L) in
      (
        join b L ++ before,
        after ++ rest,
        join_split n b (n - 1 - b) L (omega (arith, stands.branch-lt))
            ∙ ap (λ t. join b L ++ (t ++ rest)) e
            ∙ ap (λ t. join b L ++ t) (append_assoc before ((key, value) ∷ after) rest)
            ∙ sym (append_assoc (join b L) before ((key, value) ∷ (after ++ rest))),
      )

module _ ⦃prost : Prost⦄ ⦃host : HostFunctionsProvider⦄ (op : LeafOp) (inner : InnerSpec)
    (n size min : ℕ) (s : IsSized inner n size min min) (order : HoldsBranches inner n) where
  -- Only an absent child has the hash of the empty child.
  entries-of_empty :
      (t : Tree) (hash : Bytes)
      → HasHash op inner n size min t hash
      → hash ≡ inner.empty_child
      → entries n t ≡ []
  entries-of_empty hole hash (absent _) e = refl
  entries-of_empty (leaf k v) hash (pair _ _ solid) e = absurd (solid e)
  entries-of_empty (node header child) hash (branch _ _ _ _ _ _ solid) e = absurd (solid e)

  module _ {step : InnerOp} {b : ℕ} {header : Bytes} {hashes : ℕ → Bytes}
      (head : length header ≡ min) (sizes : (i : ℕ) → i < n → length (hashes i) ≡ size)
      (stands : StandsAt n step b header hashes) where
    length-prefix : length step.prefix ≡ min + b * size
    length-prefix = omega (
      arith,
      ap length stands.prefix,
      length-append header (join b hashes),
      length-join b size hashes (λ i h. sizes i (omega (arith, stands.branch-lt))),
      head,
    )

    -- The lengths of a step tell the child that it stands over.
    IsAt-branch : (c : ℕ) → IsAt n size min min step c → c ≡ b
    IsAt-branch c at =
        let same : c * size ≡ b * size =
          omega (arith, length-prefix, at.prefix_low, at.prefix_high) in
        let le : c ≤ b = le_of_mul-le-mul_right (omega (arith, same)) s.size_pos in
        let ge : b ≤ c = le_of_mul-le-mul_right (omega (arith, same)) s.size_pos in
        omega (arith, le, ge)

    module _ {child : ℕ → Tree}
        (below : (i : ℕ) → i < n → HasHash op inner n size min (child i) (hashes i)) where
      -- Nothing stands after the child of a last step.
      none_after : IsLast s order step → join (n - 1 - b) (from (suc b) (listed n child)) ≡ []
      none_after (c, at, place) =
          let same = IsAt-branch c at in
          elim place [
            | inl last ↦
                let none_left : n - 1 - b ≡ 0 = omega (arith, last, same) in
                ap (λ m. join m (from (suc b) (listed n child))) none_left
            | inr (two, empty) ↦
                let one : n - 1 - b ≡ 1 = omega (arith, two, same) in
                let next : suc b < n = omega (arith, two, same) in
                let hash : hashes (suc b) ≡ inner.empty_child =
                  sym (from_first (suc b) hashes)
                  ∙ sym (append-nil (from (suc b) hashes 0))
                  ∙ ap (λ m. join m (from (suc b) hashes)) (sym one)
                  ∙ sym stands.suffix
                  ∙ empty in
                ap (λ m. join m (from (suc b) (listed n child))) one
                ∙ append-nil (from (suc b) (listed n child) 0)
                ∙ from_first (suc b) (listed n child)
                ∙ entries-of_empty (child (suc b)) (hashes (suc b)) (below (suc b) next) hash
          ]

      -- Nothing stands before the child of a first step.
      none_before : IsFirst s order step → join b (listed n child) ≡ []
      none_before (c, at, empty) =
          let same = IsAt-branch c at in
          let start : length step.prefix - c * size ≡ length header =
            omega (arith, at.prefix_low, at.prefix_high, head) in
          join_nil b (listed n child) (λ i h.
            let here : i < n = omega (arith, h, stands.branch-lt) in
            let hash : hashes i ≡ inner.empty_child =
              sym (
                join_at b size i header hashes (λ j k. sizes j (omega (arith, k, stands.branch-lt)))
                  h)
              ∙ ap (λ t. take size (drop (length header + i * size) t)) (sym stands.prefix)
              ∙ ap (λ m. take size (drop (m + i * size) step.prefix)) (sym start)
              ∙ empty i (omega (arith, h, same)) in
            entries-of_empty (child i) (hashes i) (below i here) hash)

  -- Prefixes of one length end before one child.
  one_branch :
      {step other : InnerOp} {b b' : ℕ} {header header' : Bytes} {hashes hashes' : ℕ → Bytes}
      → length header ≡ min
      → ((i : ℕ) → i < n → length (hashes i) ≡ size)
      → StandsAt n step b header hashes
      → length header' ≡ min
      → ((i : ℕ) → i < n → length (hashes' i) ≡ size)
      → StandsAt n other b' header' hashes'
      → length other.prefix ≡ length step.prefix
      → b' ≡ b
  one_branch {b = b} {b' = b'} head sizes stands head' sizes' stands' e =
      let same : b' * size ≡ b * size =
        omega (arith, e, length-prefix head sizes stands, length-prefix head' sizes' stands') in
      let le : b' ≤ b = le_of_mul-le-mul_right (omega (arith, same)) s.size_pos in
      let ge : b ≤ b' = le_of_mul-le-mul_right (omega (arith, same)) s.size_pos in
      omega (arith, le, ge)

  -- A path that keeps to the right leads to the last pair.
  pub last_entry :
      {t : Tree} {path : List InnerOp} {key value : Bytes}
      → Descends op inner n size min t path key value
      → All (IsLast s order) path
      → (before : List (Bytes × Bytes)) × (entries n t ≡ before ++ (key, value) ∷ [])
  last_entry (arrives ek ev) a = ([], λ i. (ek i, ev i) ∷ [])
  last_entry {key = key} {value = value} (steps {child = child} b hashes head below sizes stands d)
        (last, lasts) =
      let (before, e) = last_entry d lasts in
      (
        join b (listed n child) ++ before,
        join_split n b (n - 1 - b) (listed n child) (omega (arith, stands.branch-lt))
            ∙ ap (λ t. join b (listed n child) ++ (listed n child b ++ t))
                (none_after head sizes stands below last)
            ∙ ap (λ t. join b (listed n child) ++ (t ++ [])) e
            ∙ weave (join b (listed n child)) before (key, value) [],
      )

  -- A path that keeps to the left leads to the first pair.
  pub first_entry :
      {t : Tree} {path : List InnerOp} {key value : Bytes}
      → Descends op inner n size min t path key value
      → All (IsFirst s order) path
      → (after : List (Bytes × Bytes)) × (entries n t ≡ (key, value) ∷ after)
  first_entry (arrives ek ev) a = ([], λ i. (ek i, ev i) ∷ [])
  first_entry {key = key} {value = value} (steps {child = child} b hashes head below sizes stands d)
        (first, firsts) =
      let (after, e) = first_entry d firsts in
      let rest = join (n - 1 - b) (from (suc b) (listed n child)) in
      (
        after ++ rest,
        join_split n b (n - 1 - b) (listed n child) (omega (arith, stands.branch-lt))
            ∙ ap (λ t. t ++ (listed n child b ++ rest)) (none_before head sizes stands below first)
            ∙ ap (λ t. t ++ rest) e,
      )

  -- Neighbouring paths lead to pairs next to each other.
  pub adjacent_entries :
      {t : Tree} {left right : List InnerOp} {fork : Divergence} {k v k' v' : Bytes}
      → Forks left right fork
      → Descends op inner n size min t left k v
      → Descends op inner n size min t right k' v'
      → IsLeftStep s order fork.top_left fork.top_right
      → All (IsLast s order) fork.below_left
      → All (IsFirst s order) fork.below_right
      → (before : List (Bytes × Bytes)) × (after : List (Bytes × Bytes)) × (entries n t
          ≡ before ++ (k, v) ∷ (k', v') ∷ after)
  adjacent_entries {k = k} {v = v} {k' = k'} {v' = v'} (apart differ)
        (steps {child = child} b hashes head below sizes stands d)
        (steps b' hashes' head' below' sizes' stands' d') (c, at, at') lasts firsts =
      let L = listed n child in
      let here = IsAt-branch head sizes stands c at in
      let there = IsAt-branch head' sizes' stands' (suc c) at' in
      let next : b' ≡ suc b = omega (arith, here, there) in
      let (before, e) = last_entry d lasts in
      let (after, e') = first_entry d' firsts in
      let r = n - 1 - b' in
      let more : n - 1 - b ≡ suc r = omega (arith, next, stands'.branch-lt) in
      let rest = join r (λ i. from (suc b) L (suc i)) in
      (
        join b L ++ before,
        after ++ rest,
        join_split n b (n - 1 - b) L (omega (arith, stands.branch-lt))
            ∙ ap (λ m. join b L ++ (L b ++ join m (from (suc b) L))) more
            ∙ ap (λ t. join b L ++ (L b ++ (t ++ rest)))
                (from_first (suc b) L ∙ ap L (sym next) ∙ e')
            ∙ ap (λ t. join b L ++ (t ++ ((k', v') ∷ (after ++ rest)))) e
            ∙ weave (join b L) before (k, v) ((k', v') ∷ (after ++ rest)),
      )
  adjacent_entries {k = k} {v = v} {k' = k'} {v' = v'} (shared same f)
        (steps {child = child} b hashes head below sizes stands d)
        (steps {path = onward} b' hashes' head' below' sizes' stands' d') adjacent lasts firsts =
      let L = listed n child in
      let branch : b' ≡ b =
        one_branch head sizes stands head' sizes' stands' (sym (ap length same.0)) in
      let (before, after, e) =
        adjacent_entries f d
          (subst (λ c. Descends op inner n size min (child c) onward k' v') branch d') adjacent
          lasts firsts in
      let rest = join (n - 1 - b) (from (suc b) L) in
      (
        join b L ++ before,
        after ++ rest,
        join_split n b (n - 1 - b) L (omega (arith, stands.branch-lt))
            ∙ ap (λ t. join b L ++ (t ++ rest)) e
            ∙ ap (λ t. join b L ++ t) (append_assoc before ((k, v) ∷ (k', v') ∷ after) rest)
            ∙ sym (append_assoc (join b L) before ((k, v) ∷ (k', v') ∷ (after ++ rest))),
      )
