-- ===== src/Verify/Padding.antt =====
-- Which child a step of a path descends to, told from the lengths of its prefix and suffix, and
-- whether the children beside it are empty. The arithmetic is that of a release build: i32 and usize
-- operations wrap, and a slice out of bounds panics.
pub mod Order
pub mod Siblings
pub mod Empty
use ics.Prelude.{
  ℕ, zero, suc, ◌-◌, Bool, true, false, not, ◌&&◌, Option, none, some, List, [], ◌∷◌, length, take,
  drop, ltb, leb, ◌==◌, if◌then◌else◌,
}
use ics.Prelude.Bytes.{Bytes, bytes_eq}
use ics.Prelude.Int.{
  ℤ, pos, pos_part, eqb_ℤ, ◌+ℤ◌, ◌*ℤ◌, wrap32, as_i32, as_usize, usize_add, usize_sub, usize_mul,
}
use ics.Prelude.Result.{Result, ok, err, panic, ◌>>=◌, unwrap, padding_unmatched, branch_not_found}
use ics.Proto.Types.{InnerOp, InnerSpec}

pub record Padding : Type 0 where
  pub min_prefix : ℕ
  pub max_prefix : ℕ
  pub suffix : ℕ

unfoldable pub has_padding : InnerOp → Padding → Bool
has_padding op pad =
    leb pad.min_prefix (length op.prefix)
    && leb (length op.prefix) pad.max_prefix
    && length op.suffix == pad.suffix

-- `child_order.iter().find(|&&x| x == branch)`
unfoldable pub find_branch : ℤ → List ℤ → Option ℤ
find_branch branch [] = none
find_branch branch (x ∷ xs) = if eqb_ℤ x branch then some x else find_branch branch xs

abbrev padding_at : InnerSpec → Option ℤ → Result Padding
padding_at spec none = err branch_not_found
padding_at spec (some idx) =
    let prefix = wrap32 (idx *ℤ spec.child_size) in
    ok (record {
      min_prefix = as_usize (wrap32 (prefix +ℤ spec.min_prefix_length));
      max_prefix = as_usize (wrap32 (prefix +ℤ spec.max_prefix_length));
      suffix =
          usize_mul (as_usize spec.child_size)
            (usize_sub (usize_sub (length spec.child_order) 1) (as_usize idx));
    })

unfoldable pub get_padding : InnerSpec → ℤ → Result Padding
unfolding find_branch
get_padding spec branch = padding_at spec (find_branch branch spec.child_order)

-- The loop of `order_from_padding`, with the rounds that are left.
unfoldable pub order_from : InnerSpec → InnerOp → ℕ → ℕ → Result ℤ
order_from spec op zero branch = err padding_unmatched
order_from spec op (suc rounds) branch =
    let rest = order_from spec op rounds (suc branch) in
    do
      padding ← get_padding spec (pos branch)
      if has_padding op padding then ok (pos branch) else rest

unfoldable pub order_from_padding : InnerSpec → InnerOp → Result ℤ
unfolding order_from
order_from_padding spec op = order_from spec op (pos_part (as_i32 (length spec.child_order))) 0

-- `bytes[from..to]`
unfoldable pub slice : Bytes → ℕ → ℕ → Result Bytes
slice bytes from to =
    if leb from to && leb to (length bytes) then ok (take (to - from) (drop from bytes)) else panic

-- The loop over the siblings of both functions below: each must be the empty child. The siblings
-- stand one after the other in `bytes`, from `start` on.
unfoldable pub siblings_are_empty : InnerSpec → Bytes → ℕ → ℕ → ℕ → Result Bool
unfolding slice
siblings_are_empty spec bytes start zero i = ok true
siblings_are_empty spec bytes start (suc rounds) i =
    let rest = siblings_are_empty spec bytes start rounds (suc i) in
    do
      idx ← unwrap (find_branch (as_i32 i) spec.child_order)
      let from = usize_add start (usize_mul (as_usize idx) (as_usize spec.child_size))
      sibling ← slice bytes from (usize_add from (as_usize spec.child_size))
      if not (bytes_eq spec.empty_child sibling) then ok false else rest

unfoldable pub left_branches_are_empty : InnerSpec → InnerOp → Result Bool
left_branches_are_empty spec op = do
  idx ← order_from_padding spec op
  let left_branches = as_usize idx
  let left_bytes = usize_mul left_branches (as_usize spec.child_size)
  if left_branches == 0
      then ok false
      else if ltb (length op.prefix) left_bytes
      then ok false
      else siblings_are_empty spec op.prefix (length op.prefix - left_bytes) left_branches 0

unfoldable pub right_branches_are_empty : InnerSpec → InnerOp → Result Bool
right_branches_are_empty spec op = do
  idx ← order_from_padding spec op
  let right_branches = usize_sub (usize_sub (length spec.child_order) 1) (as_usize idx)
  if right_branches == 0
      then ok false
      else if not (length op.suffix == as_usize spec.child_size)
      then ok false
      else siblings_are_empty spec op.suffix 0 right_branches 0
