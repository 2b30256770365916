-- ===== src/Tests/Paths.antt =====
-- Examples for paths: branches, edges of the tree and neighbours.
use ics.Prelude.{ℕ, ◌-◌, ◌*◌, ◌<◌, ◌≡◌, refl, true, [], ◌∷◌, length, All, arith}
use ics.Prelude.Int.{pos}
use ics.Prelude.Result.{ok, panic}
use ics.Proto.Types.{InnerOp, InnerSpec}
use ics.Api.Specs.{tendermint_inner}
use ics.Verify.Shape.{IsSized}
use ics.Verify.Padding.{left_branches_are_empty, right_branches_are_empty}
use ics.Verify.Padding.Order.{HoldsBranches, IsAt, order_from_padding_iff}
use ics.Verify.Padding.Siblings.{sibling}
use ics.Verify.Padding.Empty.{left_branches_are_empty_iff, right_branches_are_empty_iff}
use ics.Verify.Neighbor.{ensure_left_neighbor}
use ics.Verify.Neighbor.Edge.{IsFirst, IsLast, ensure_left_most_iff, ensure_right_most_iff}
use ics.Verify.Neighbor.Fork.{
  AreNeighbors, right_ends, goes_on, ensure_left_neighbor_iff, ensure_left_neighbor_panics_iff,
}
use ics.Tests.{sample_prost, sample_host}
use ics.Tests.Samples.{
  exist_1, exist_3, exist_5, exist_7, left_step, right_step, node_a, node_b, tendermint_sized,
  tendermint_branches,
}
use ics.Tests.Runs.{neighbors_3_5, first_is_1, last_is_7, at_branch_1}
use mathlib.Core.List.{Memᴰ}

order_from_padding_iff_example : IsAt 2 32 1 1 (right_step node_a) 1
order_from_padding_iff_example =
    (order_from_padding_iff tendermint_sized tendermint_branches (right_step node_a) 1).0
      at_branch_1

ensure_left_most_iff_example : All (IsFirst tendermint_sized tendermint_branches) exist_1.path
ensure_left_most_iff_example =
    (ensure_left_most_iff tendermint_sized tendermint_branches exist_1.path).0 first_is_1

ensure_right_most_iff_example : All (IsLast tendermint_sized tendermint_branches) exist_7.path
ensure_right_most_iff_example =
    (ensure_right_most_iff tendermint_sized tendermint_branches exist_7.path).0 last_is_7

ensure_left_neighbor_iff_example :
    AreNeighbors tendermint_sized tendermint_branches exist_3.path exist_5.path
ensure_left_neighbor_iff_example =
    (ensure_left_neighbor_iff tendermint_sized tendermint_branches exist_3.path exist_5.path).0
      neighbors_3_5

ensure_left_neighbor_panics_iff_example :
    ensure_left_neighbor tendermint_inner exist_1.path (left_step node_b ∷ []) ≡ panic
ensure_left_neighbor_panics_iff_example =
    (ensure_left_neighbor_panics_iff tendermint_sized tendermint_branches exist_1.path
        (left_step node_b ∷ [])).1
      (goes_on (refl, refl) right_ends)

-- A spec of three children of two bytes, with an empty child.
abbrev three_children : InnerSpec
three_children = record {
  child_order = pos 0 ∷ pos 1 ∷ pos 2 ∷ [];
  child_size = pos 2;
  min_prefix_length = pos 1;
  max_prefix_length = pos 1;
  empty_child = 0 ∷ 0 ∷ [];
  hash = pos 1;
}

three_sized : IsSized three_children 3 2 1 1
three_sized = record {
  child_count = refl;
  child_size = refl;
  min_prefix = refl;
  max_prefix = refl;
  has_child = omega arith;
  size_pos = omega arith;
  min-le-max = omega arith;
  max-lt-min = omega arith;
  no_overflow = omega arith;
}

three_branches : HoldsBranches three_children 3
three_branches ℕ.zero h = Memᴰ.head refl
three_branches (ℕ.suc ℕ.zero) h = Memᴰ.tail (Memᴰ.head refl)
three_branches (ℕ.suc (ℕ.suc ℕ.zero)) h = Memᴰ.tail (Memᴰ.tail (Memᴰ.head refl))
three_branches (ℕ.suc (ℕ.suc (ℕ.suc b))) h = absurd (omega arith)

abbrev last_of_three : InnerOp
last_of_three = record { hash = pos 1; prefix = 9 ∷ 0 ∷ 0 ∷ 0 ∷ 0 ∷ []; suffix = [] }

abbrev middle_of_three : InnerOp
middle_of_three = record { hash = pos 1; prefix = 9 ∷ 5 ∷ 5 ∷ []; suffix = 0 ∷ 0 ∷ [] }

last_of_three-IsAt : IsAt 3 2 1 1 last_of_three 2
last_of_three-IsAt = record {
  branch-lt = omega arith;
  prefix_low = omega arith;
  prefix_high = omega arith;
  suffix_rest = refl;
}

middle_of_three-IsAt : IsAt 3 2 1 1 middle_of_three 1
middle_of_three-IsAt = record {
  branch-lt = omega arith;
  prefix_low = omega arith;
  prefix_high = omega arith;
  suffix_rest = refl;
}

two_empty :
    (j : ℕ)
    → j < 2
    → sibling three_sized three_branches last_of_three.prefix
        (length last_of_three.prefix - 2 * 2)
        j
      ≡ 0 ∷ 0 ∷ []
two_empty ℕ.zero h = refl
two_empty (ℕ.suc ℕ.zero) h = refl
two_empty (ℕ.suc (ℕ.suc j)) h = absurd (omega arith)

left_branches_are_empty_iff_example : left_branches_are_empty three_children last_of_three ≡ ok true
left_branches_are_empty_iff_example =
    (left_branches_are_empty_iff three_sized three_branches last_of_three).1
      (2, last_of_three-IsAt, omega arith, two_empty)

right_branches_are_empty_iff_example :
    right_branches_are_empty three_children middle_of_three ≡ ok true
right_branches_are_empty_iff_example =
    (right_branches_are_empty_iff three_sized three_branches middle_of_three).1
      (1, middle_of_three-IsAt, refl, refl)
