-- ===== src/Verify/Neighbor.antt =====
-- Left-most and right-most paths and left neighbours, of rust/src/verify.rs.
pub mod Edge
pub mod Fork
use ics.Prelude.{ℕ, Bool, true, false, ◌&&◌, List, [], ◌∷◌, reverse, length, if◌then◌else◌}
use ics.Prelude.Bytes.{bytes_eq}
use ics.Prelude.Int.{ℤ, pos, ◌+ℤ◌, eqb_ℤ, wrap32, as_i32, usize_sub}
use ics.Prelude.Result.{
  Result, ok, err, panic, ◌>>=◌, ◌>>◌, ensure, step_not_leftmost, not_left_neighbor,
}
use ics.Proto.Types.{InnerOp, InnerSpec}
use ics.Verify.Padding.{
  Padding, has_padding, get_padding, order_from_padding, left_branches_are_empty,
  right_branches_are_empty,
}

-- One round of the loops of `ensure_left_most` and `ensure_right_most`; `empty` is asked only if the
-- step has not the padding.
abbrev pub ensure_step : (InnerOp → Result Bool) → Padding → InnerOp → Result (Unit {0})
ensure_step empty pad step =
    if has_padding step pad then ok tt else empty step >>= λ e. ensure e step_not_leftmost

unfoldable pub ensure_each_step :
    (InnerOp → Result Bool) → Padding → List InnerOp → Result (Unit {0})
ensure_each_step empty pad [] = ok tt
ensure_each_step empty pad (step ∷ path) =
    ensure_step empty pad step >> ensure_each_step empty pad path

unfoldable pub ensure_left_most : InnerSpec → List InnerOp → Result (Unit {0})
ensure_left_most spec path = do
  pad ← get_padding spec (pos 0)
  ensure_each_step (left_branches_are_empty spec) pad path

-- The message of a step that is not right-most is "step not leftmost" too.
unfoldable pub ensure_right_most : InnerSpec → List InnerOp → Result (Unit {0})
ensure_right_most spec path = do
  pad ← get_padding spec (as_i32 (usize_sub (length spec.child_order) 1))
  ensure_each_step (right_branches_are_empty spec) pad path

unfoldable pub is_left_step : InnerSpec → InnerOp → InnerOp → Result Bool
is_left_step spec left right = do
  left_idx ← order_from_padding spec left
  right_idx ← order_from_padding spec right
  ok (eqb_ℤ (wrap32 (left_idx +ℤ pos 1)) right_idx)

pub record Divergence : Type 0 where
  pub top_left : InnerOp
  pub top_right : InnerOp
  pub below_left : List InnerOp
  pub below_right : List InnerOp

-- The paths are popped from their ends, so they come reversed: the steps next to the root first. A
-- path that is used up is an `unwrap` of `None`.
unfoldable pub diverge : List InnerOp → List InnerOp → Result Divergence
diverge [] right = panic
diverge (l ∷ left) [] = panic
diverge (l ∷ left) (r ∷ right) =
    let rest = diverge left right in
    if bytes_eq l.prefix r.prefix && bytes_eq l.suffix r.suffix
    then rest
    else ok (record { top_left = l; top_right = r; below_left = left; below_right = right })

unfoldable pub ensure_left_neighbor : InnerSpec → List InnerOp → List InnerOp → Result (Unit {0})
ensure_left_neighbor spec left right = do
  d ← diverge (reverse left) (reverse right)
  is_left ← is_left_step spec d.top_left d.top_right
  ensure is_left not_left_neighbor
  ensure_right_most spec (reverse d.below_left)
  ensure_left_most spec (reverse d.below_right)
