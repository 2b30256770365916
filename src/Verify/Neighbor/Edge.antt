-- ===== src/Verify/Neighbor/Edge.antt =====
-- Left-most and right-most paths: `ensure_left_most` and `ensure_right_most` of rust/src/verify.rs.
use ics.Prelude.{
  ℕ, zero, suc, ◌+◌, ◌-◌, ◌*◌, ◌<◌, ◌≡◌, refl, ap, ◌∙◌, ◌↔◌, ◌⊎◌, inl, inr, ◌≢◌, Bool, true, List,
  [], ◌∷◌, length, All, arith, Bool-cases, subst,
}
use ics.Prelude.Int.{pos, as_i32, usize_sub, wrap32-pos}
use ics.Prelude.Result.{
  Result, ok, panic, ensure, >>=-eq-ok, >>=-ne-panic, >>-eq-ok, >>-eq-ok_of, ensure_iff,
  ensure-ne-panic, step_not_leftmost,
}
use ics.Proto.Types.{InnerOp, InnerSpec}
use ics.Verify.Shape.{IsSized, last_branch, n-lt}
use ics.Verify.Padding.{Padding, has_padding, left_branches_are_empty, right_branches_are_empty}
use ics.Verify.Padding.Order.{HoldsBranches, IsAt, get_padding-eq, padding_of, has_padding_iff}
use ics.Verify.Padding.Siblings.{sibling}
use ics.Verify.Padding.Empty.{
  left_branches_are_empty_iff, right_branches_are_empty_iff, left_branches_are_empty-ne-panic,
  right_branches_are_empty-ne-panic,
}
use ics.Verify.Neighbor.{ensure_step, ensure_each_step, ensure_left_most, ensure_right_most}

module _ (empty : InnerOp → Result Bool) (pad : Padding) where
  -- A round of the loop lets a step through that has the padding, or whose siblings are empty.
  ensure_step_iff :
      (step : InnerOp)
      → (ensure_step empty pad step ≡ ok tt)
        ↔ ((has_padding step pad ≡ true) ⊎ (empty step ≡ ok true))
  ensure_step_iff step = elim (Bool-cases (has_padding step pad)) [
    | inl fits ↦ rw fits (λ e. inl refl, λ h. refl)
    | inr no_fit ↦ rw no_fit (
      λ e.
          let (b, emptied, e₁) = >>=-eq-ok (empty step) (λ x. ensure x step_not_leftmost) e in
          inr (emptied ∙ ap ok ((ensure_iff b step_not_leftmost).0 e₁)),
      λ h. elim h [ inl fits ↦ absurd (cc) | inr emptied ↦ rw emptied ],
    )
  ]

  ensure_each_step_iff :
      {P : InnerOp → Type 0}
      → ((step : InnerOp) → ((has_padding step pad ≡ true) ⊎ (empty step ≡ ok true)) ↔ P step)
      → (path : List InnerOp) → (ensure_each_step empty pad path ≡ ok tt) ↔ All P path
  unfolding ensure_each_step
  ensure_each_step_iff good [] = (λ e. tt, λ a. refl)
  ensure_each_step_iff good (step ∷ path) =
      let one = ensure_step_iff step in
      let rest = ensure_each_step_iff good path in
      (
        λ e.
            let (h, t) =
              >>-eq-ok (ensure_step empty pad step) (ensure_each_step empty pad path) e in
            ((good step).0 (one.0 h), rest.0 t),
        λ (h, t).
            >>-eq-ok_of (ensure_step empty pad step) (ensure_each_step empty pad path)
              (one.1 ((good step).1 h)) (rest.1 t),
      )

  ensure_each_step-ne-panic :
      ((step : InnerOp) → empty step ≢ panic)
      → (path : List InnerOp) → ensure_each_step empty pad path ≢ panic
  unfolding ensure_each_step
  ensure_each_step-ne-panic safe [] = λ e. cc
  ensure_each_step-ne-panic safe (step ∷ path) =
      >>=-ne-panic (ensure_step empty pad step) (λ _. ensure_each_step empty pad path)
        (elim (Bool-cases (has_padding step pad)) [
          | inl fits ↦ rw fits (λ e. cc)
          | inr no_fit ↦ rw no_fit (
              >>=-ne-panic (empty step) (λ x. ensure x step_not_leftmost) (safe step)
                (λ x _. ensure-ne-panic x step_not_leftmost))
        ])
        (λ _ _. ensure_each_step-ne-panic safe path)

module _ {spec : InnerSpec} {n size min max : ℕ} (s : IsSized spec n size min max)
    (order : HoldsBranches spec n) where
  -- Every child to the left of the one that the step descends to is the empty child.
  abbrev pub IsFirst : InnerOp → Type 0
  IsFirst op =
      (b : ℕ) × IsAt n size min max op b
      × ((j : ℕ)
          → j < b
          → sibling s order op.prefix (length op.prefix - b * size) j ≡ spec.empty_child)

  -- The step descends to the last child, or to the last but one beside an empty last child.
  abbrev pub IsLast : InnerOp → Type 0
  IsLast op =
      (b : ℕ) × IsAt n size min max op b
      × ((b + 1 ≡ n) ⊎ ((b + 2 ≡ n) × (op.suffix ≡ spec.empty_child)))

  IsFirst-iff :
      (op : InnerOp)
      → ((has_padding op (padding_of s order 0) ≡ true)
          ⊎ (left_branches_are_empty spec op ≡ ok true))
        ↔ IsFirst op
  IsFirst-iff op = (
    λ h. elim h [
      | inl fits ↦
          (0, (has_padding_iff s order op 0 s.has_child).0 fits, λ j below. absurd (omega arith))
      | inr emptied ↦
          let (b, at, _, all) = (left_branches_are_empty_iff s order op).0 emptied in (b, at, all)
    ],
    λ (b, at, all). elim (first_or_later b) [
      | inl first ↦
          inl
            ((has_padding_iff s order op 0 s.has_child).1 (subst (IsAt n size min max op) first at))
      | inr later ↦ inr ((left_branches_are_empty_iff s order op).1 (b, at, later, all))
    ],
  )
    where
      first_or_later : (b : ℕ) → (b ≡ 0) ⊎ (0 < b)
      first_or_later zero = inl refl
      first_or_later (suc b) = inr (omega arith)

  IsLast-iff :
      (op : InnerOp)
      → ((has_padding op (padding_of s order (n - 1)) ≡ true)
          ⊎ (right_branches_are_empty spec op ≡ ok true))
        ↔ IsLast op
  IsLast-iff op =
      let below : n - 1 < n = omega (arith, s.has_child) in
      (
        λ h. elim h [
          | inl fits ↦ (n - 1, (has_padding_iff s order op (n - 1) below).0 fits, inl (omega arith))
          | inr emptied ↦
              let (b, at, two, same) = (right_branches_are_empty_iff s order op).0 emptied in
              (b, at, inr (two, same))
        ],
        λ (b, at, place). elim place [
          | inl last ↦ inl (
              (has_padding_iff s order op (n - 1) below).1
                (subst (IsAt n size min max op) (omega arith) at))
          | inr (two, same) ↦ inr ((right_branches_are_empty_iff s order op).1 (b, at, two, same))
        ],
      )

  -- For a sized spec whose child order names every branch, `ensure_left_most` accepts exactly the
  -- paths each of whose steps has only empty children to the left of the child it descends to.
  pub ensure_left_most_iff :
      (path : List InnerOp) → (ensure_left_most spec path ≡ ok tt) ↔ All IsFirst path
  unfolding ensure_left_most
  ensure_left_most_iff path =
      rw (get_padding-eq s order 0 s.has_child) (
        ensure_each_step_iff (left_branches_are_empty spec) (padding_of s order 0) IsFirst-iff path)

  last_padding : as_i32 (usize_sub (length spec.child_order) 1) ≡ pos (n - 1)
  last_padding = ap as_i32 (last_branch s) ∙ wrap32-pos (n - 1) (omega (arith, n-lt s))

  -- For such a spec, `ensure_right_most` accepts exactly the paths each of whose steps descends to the
  -- last child, or to the last but one beside an empty last child.
  pub ensure_right_most_iff :
      (path : List InnerOp) → (ensure_right_most spec path ≡ ok tt) ↔ All IsLast path
  unfolding ensure_right_most
  ensure_right_most_iff path =
      rw (last_padding, get_padding-eq s order (n - 1) (omega (arith, s.has_child)))
        (ensure_each_step_iff (right_branches_are_empty spec) (padding_of s order (n - 1))
          IsLast-iff path)

  pub ensure_left_most-ne-panic : (path : List InnerOp) → ensure_left_most spec path ≢ panic
  unfolding ensure_left_most
  ensure_left_most-ne-panic path = rw (get_padding-eq s order 0 s.has_child) (
      ensure_each_step-ne-panic (left_branches_are_empty spec) (padding_of s order 0)
        (left_branches_are_empty-ne-panic s order) path)

  pub ensure_right_most-ne-panic : (path : List InnerOp) → ensure_right_most spec path ≢ panic
  unfolding ensure_right_most
  ensure_right_most-ne-panic path =
      rw (last_padding, get_padding-eq s order (n - 1) (omega (arith, s.has_child)))
        (ensure_each_step-ne-panic (right_branches_are_empty spec) (padding_of s order (n - 1))
          (right_branches_are_empty-ne-panic s order) path)
