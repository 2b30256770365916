-- ===== src/Verify/Tree/Neighbors.antt =====
-- The first, the last and neighbouring pairs of a tree without absent children have paths that the
-- checks of positions in rust/src/verify.rs are about.
use ics.Prelude.{
  ℕ, suc, ◌+◌, ◌-◌, ◌*◌, ◌<◌, ◌≡◌, ◌≢◌, refl, ap, ◌∙◌, subst, inl, inr, false, List, [], ◌∷◌, ◌++◌,
  length, All, arith, length-append,
}
use ics.Prelude.Bytes.{Bytes}
use ics.Prelude.Numbered.{join, from, from-at, length-join}
use ics.Prelude.Adjacent.{
  Starts-only, Ends-only, Adjoins-only, Starts, Ends, Adjoins, join-filled, Starts-join, Ends-join,
  Adjoins-join,
}
use ics.Proto.Types.{LeafOp, InnerOp, InnerSpec, ProofSpec}
use ics.Proto.Prost.{Prost}
use ics.Host.{HostFunctionsProvider}
use ics.Api.Specs.{is_iavl_spec}
use ics.Verify.Neighbor.{Divergence}
use ics.Verify.Neighbor.Edge.{IsFirst, IsLast}
use ics.Verify.Neighbor.Fork.{Forks, apart, shared, IsLeftStep}
use ics.Verify.Padding.Order.{HoldsBranches, IsAt}
use ics.Verify.Tree.{Tree, hole, leaf, node, entries, HasHash, absent, pair, branch}
use ics.Verify.Tree.Refinement.{IsUniform}
use ics.Verify.Tree.Steps.{step_over}
use ics.Verify.Tree.Completeness.{Honest, Honest-leaf, Honest-step}
use native.Mathlib.Nat.{mul_comm, add-mul}

-- No child that counts is absent.
abbrev pub IsFull : ℕ → Tree → Type 0
IsFull n hole = ⊥
IsFull n (leaf key value) = Unit
IsFull n (node header child) = (i : ℕ) → i < n → IsFull n (child i)

pub entries-filled : (n : ℕ) (t : Tree) → 0 < n → IsFull n t → entries n t ≢ []
entries-filled n hole h full = elim full [ ]
entries-filled n (leaf k v) h full = λ e. cc
entries-filled n (node header child) h full =
    join-filled n (λ i. entries n (child i)) (λ i k. entries-filled n (child i) h (full i k)) h

one_more : (i : ℕ) → i + 1 ≡ suc i
one_more i = omega arith

module _ ⦃prost : Prost⦄ ⦃host : HostFunctionsProvider⦄ (spec : ProofSpec) (op : LeafOp)
    (inner : InnerSpec) (n size min : ℕ) (u : IsUniform spec op inner n size min)
    (other : is_iavl_spec spec ≡ false) (order : HoldsBranches inner n) where
  step_over-IsAt :
      (header : Bytes) (hashes : ℕ → Bytes) (b : ℕ)
      → b < n
      → length header ≡ min
      → ((i : ℕ) → i < n → length (hashes i) ≡ size)
      → IsAt n size min min (step_over spec op inner n size min u header hashes b) b
  step_over-IsAt header hashes b h head sizes =
      let front : length (header ++ join b hashes) ≡ min + b * size = omega (
        arith,
        head,
        length-append header (join b hashes),
        length-join b size hashes (λ i k. sizes i (omega (arith, h, k))),
      ) in
      record {
        branch-lt = h;
        prefix_low = omega (arith, front);
        prefix_high = omega (arith, front);
        suffix_rest =
            length-join (n - 1 - b) size (from (suc b) hashes) (λ i k.
              ap length (from-at (suc b) i hashes) ∙ sizes (suc b + i) (omega (arith, k, h)))
            ∙ mul_comm (n - 1 - b) size;
      }

  filled_below :
      (child : ℕ → Tree) (i : ℕ)
      → ((i : ℕ) → i < n → IsFull n (child i))
      → i < n
      → entries n (child i) ≢ []
  filled_below child i full h = entries-filled n (child i) u.sized.has_child (full i h)

  Honest-of_eq :
      {root : Bytes} {down : List InnerOp} {pair other : Bytes × Bytes}
      → pair ≡ other
      → Honest spec op inner n size min u root pair.0 pair.1 down
      → Honest spec op inner n size min u root other.0 other.1 down
  Honest-of_eq {root = root} {down = down} e =
      subst (λ p. Honest spec op inner n size min u root p.0 p.1 down) e

  -- A path to the last pair keeps to the right.
  pub IsLast-path :
      {t : Tree} {root : Bytes} {entry : Bytes × Bytes}
      → HasHash op inner n size min t root
      → IsFull n t
      → Ends entry (entries n t)
      → (down : List InnerOp) × Honest spec op inner n size min u root entry.0 entry.1 down
        × All (IsLast u.sized order) down
  IsLast-path (absent _) full ends = elim full [ ]
  IsLast-path {entry = entry} (pair {key = k} {value = v} fits hashed _) full ends = (
    [],
    Honest-of_eq (Ends-only (k, v) entry ends) (Honest-leaf spec op inner n size min u hashed),
    tt,
  )
  IsLast-path {entry = entry}
        (branch {header = header} {child = child} hashes head no_leaf below sizes is_hash _) full
        ends =
      let (i, last, found) =
        Ends-join n (λ i. entries n (child i)) entry (λ i h. filled_below child i full h) ends in
      let h : i < n = omega (arith, last) in
      let (down, b, keeps) = IsLast-path (below i h) (full i h) found in
      (
        step_over spec op inner n size min u header hashes i ∷ down,
        Honest-step spec op inner n size min u other hashes i head no_leaf sizes is_hash h b,
        ((i, step_over-IsAt header hashes i h head sizes, inl last), keeps),
      )

  -- A path to the first pair keeps to the left.
  pub IsFirst-path :
      {t : Tree} {root : Bytes} {entry : Bytes × Bytes}
      → HasHash op inner n size min t root
      → IsFull n t
      → Starts entry (entries n t)
      → (down : List InnerOp) × Honest spec op inner n size min u root entry.0 entry.1 down
        × All (IsFirst u.sized order) down
  IsFirst-path (absent _) full starts = elim full [ ]
  IsFirst-path {entry = entry} (pair {key = k} {value = v} fits hashed _) full starts = (
    [],
    Honest-of_eq (Starts-only (k, v) entry starts) (Honest-leaf spec op inner n size min u hashed),
    tt,
  )
  IsFirst-path {entry = entry}
        (branch {header = header} {child = child} hashes head no_leaf below sizes is_hash _) full
        starts =
      let (h, found) =
        Starts-join n (λ i. entries n (child i)) entry (λ i h. filled_below child i full h)
          starts in
      let (down, b, keeps) = IsFirst-path (below 0 h) (full 0 h) found in
      (
        step_over spec op inner n size min u header hashes 0 ∷ down,
        Honest-step spec op inner n size min u other hashes 0 head no_leaf sizes is_hash h b,
        ((0, step_over-IsAt header hashes 0 h head sizes, λ j k. absurd (omega (arith, k))), keeps),
      )

  -- The paths to two pairs between which there is none.
  pub record NextTo (root : Bytes) (l r : Bytes × Bytes) : Type 0 where
    pub left : List InnerOp
    pub right : List InnerOp
    pub left_honest : Honest spec op inner n size min u root l.0 l.1 left
    pub right_honest : Honest spec op inner n size min u root r.0 r.1 right
    pub fork : Divergence
    pub forks : Forks left right fork
    pub adjacent : IsLeftStep u.sized order fork.top_left fork.top_right
    pub keeps_right : All (IsLast u.sized order) fork.below_left
    pub keeps_left : All (IsFirst u.sized order) fork.below_right

  pub next_paths :
      {t : Tree} {root : Bytes} {l r : Bytes × Bytes}
      → HasHash op inner n size min t root
      → IsFull n t
      → Adjoins l r (entries n t)
      → NextTo root l r
  next_paths (absent _) full adjoins = elim full [ ]
  next_paths {l = l} {r = r} (pair {key = k} {value = v} fits hashed _) full adjoins =
      absurd (Adjoins-only (k, v) l r adjoins)
  next_paths {l = l} {r = r}
        (branch {header = header} {child = child} hashes head no_leaf below sizes is_hash _) full
        adjoins =
      let step = step_over spec op inner n size min u header hashes in
      let (i, place) =
        Adjoins-join n (λ i. entries n (child i)) l r (λ i h. filled_below child i full h)
          adjoins in
      elim place [
        | inl (h, inside) ↦
            let p = next_paths (below i h) (full i h) inside in
            record {
              left = step i ∷ p.left;
              right = step i ∷ p.right;
              left_honest =
                  Honest-step spec op inner n size min u other hashes i head no_leaf sizes is_hash h
                    p.left_honest;
              right_honest =
                  Honest-step spec op inner n size min u other hashes i head no_leaf sizes is_hash h
                    p.right_honest;
              fork = p.fork;
              forks = shared (refl, refl) p.forks;
              adjacent = p.adjacent;
              keeps_right = p.keeps_right;
              keeps_left = p.keeps_left;
            }
        | inr (h, last, first) ↦
            let here : i < n = omega (arith, h) in
            let (down, b, keeps) = IsLast-path (below i here) (full i here) last in
            let (down', b', keeps') = IsFirst-path (below (suc i) h) (full (suc i) h) first in
            let at = step_over-IsAt header hashes i here head sizes in
            let at' = step_over-IsAt header hashes (suc i) h head sizes in
            record {
              left = step i ∷ down;
              right = step (suc i) ∷ down';
              left_honest =
                  Honest-step spec op inner n size min u other hashes i head no_leaf sizes is_hash
                    here b;
              right_honest =
                  Honest-step spec op inner n size min u other hashes (suc i) head no_leaf sizes
                    is_hash h b';
              fork = record {
                top_left = step i;
                top_right = step (suc i);
                below_left = down;
                below_right = down';
              };
              forks = apart (λ same. omega (
                arith,
                ap length same.0,
                at.prefix_low,
                at.prefix_high,
                at'.prefix_low,
                add-mul i 1 size,
                ap (λ m. m * size) (one_more i),
                u.sized.size_pos,
              ));
              adjacent = (i, at, at');
              keeps_right = keeps;
              keeps_left = keeps';
            }
      ]
