-- ===== src/Verify/Padding/Empty.antt =====
-- `left_branches_are_empty` and `right_branches_are_empty` of rust/src/verify.rs.
use ics.Prelude.{
  ℕ, zero, suc, ◌+◌, ◌-◌, ◌*◌, ◌^◌, ◌≤◌, ◌<◌, ◌≡◌, refl, sym, ap, ◌∙◌, ◌↔◌, inl, inr, ◌≢◌, Bool,
  true, false, not, [], ◌∷◌, length, take, drop, ltb, ==_iff, ◌==◌, ltb→lt, if◌then◌else◌, arith,
  Bool-cases,
}
use ics.Prelude.Bytes.{Bytes}
use ics.Prelude.Int.{ℤ, as_usize-pos, usize_mul-eq}
use ics.Prelude.Result.{Error, Result-cases, Result, ok, err, panic, ◌>>=◌, >>=-eq-ok}
use ics.Proto.Types.{InnerOp, InnerSpec}
use ics.Verify.Shape.{IsSized, mul-le, n-lt, as_usize-size}
use ics.Verify.Padding.{
  siblings_are_empty, order_from_padding, left_branches_are_empty, right_branches_are_empty,
}
use ics.Verify.Padding.Order.{
  HoldsBranches, IsAt, rest-eq, order_from_padding_iff, order_from_padding-IsAt,
  order_from_padding-ne-panic,
}
use ics.Verify.Padding.Siblings.{sibling, siblings_are_empty_iff, siblings_are_empty-ne-panic}

take-all : (bytes : Bytes) (k : ℕ) → length bytes ≡ k → take k bytes ≡ bytes
take-all [] zero h = refl
take-all [] (suc k) h = refl
take-all (x ∷ bytes) zero h = absurd (omega arith)
take-all (x ∷ bytes) (suc k) h = ap (λ t. x ∷ t) (take-all bytes k (omega arith))

module _ {spec : InnerSpec} {n size min max : ℕ} (s : IsSized spec n size min max)
    (order : HoldsBranches spec n) where
  -- A step about which something is said descends somewhere.
  located :
      (op : InnerOp) (k : ℤ → Result Bool) {out : Bool}
      → (order_from_padding spec op >>= k) ≡ ok out
      → (b : ℕ) × IsAt n size min max op b
  located op k e =
      let (idx, found, _) = >>=-eq-ok (order_from_padding spec op) k e in
      let (b, _, at) = order_from_padding-IsAt s order op idx found in (b, at)

  located_left :
      (op : InnerOp) {out : Bool}
      → left_branches_are_empty spec op ≡ ok out
      → (b : ℕ) × IsAt n size min max op b
  unfolding left_branches_are_empty
  located_left op e = located op _ e

  located_right :
      (op : InnerOp) {out : Bool}
      → right_branches_are_empty spec op ≡ ok out
      → (b : ℕ) × IsAt n size min max op b
  unfolding right_branches_are_empty
  located_right op e = located op _ e

  -- A function that begins with `order_from_padding` panics only where the step descends to a branch.
  bind-ne-panic :
      (op : InnerOp) (k : ℤ → Result Bool)
      → ((b : ℕ) → IsAt n size min max op b → (order_from_padding spec op >>= k) ≢ panic)
      → (order_from_padding spec op >>= k) ≢ panic
  bind-ne-panic op k h e = elim (Result-cases (order_from_padding spec op)) [
    | inl (idx, found) ↦ let (b, _, at) = order_from_padding-IsAt s order op idx found in h b at e
    | inr (inl (x, failed)) ↦ absurd (failed_ne_panic failed)
    | inr (inr panics) ↦ order_from_padding-ne-panic s order op panics
  ]
    where
      failed_ne_panic : {x : Error} → order_from_padding spec op ≡ err x → ⊥
      failed_ne_panic failed = cc (e, ap (λ m. m >>= k) failed)

  module _ (op : InnerOp) (b : ℕ) (at : IsAt n size min max op b) where
    prefix_small : length op.prefix < 2 ^ 31
    prefix_small =
        omega (arith, at.prefix_high, mul-le s b (omega (arith, at.branch-lt)), s.no_overflow)

    left_value : left_branches_are_empty spec op ≡ (
        if b == 0
        then ok false
        else siblings_are_empty spec op.prefix (length op.prefix - b * size) b 0)
    unfolding left_branches_are_empty
    left_value =
        rw
          (
            (order_from_padding_iff s order op b).1 at,
            as_usize-size s,
            as_usize-pos b (omega (arith, at.branch-lt, n-lt s)),
            usize_mul-eq b size (omega (arith, prefix_small, at.prefix_low)),
          )
          (elim (Bool-cases (ltb (length op.prefix) (b * size))) [
            | inl short ↦
                absurd (omega (arith, ltb→lt (length op.prefix) (b * size) short, at.prefix_low))
            | inr long ↦ rw long
          ])

    right_value : right_branches_are_empty spec op ≡ (
        if n - 1 - b == 0
        then ok false
        else if not (length op.suffix == size)
        then ok false
        else siblings_are_empty spec op.suffix 0 (n - 1 - b) 0)
    unfolding right_branches_are_empty
    right_value = rw (
      (order_from_padding_iff s order op b).1 at,
      rest-eq s order b at.branch-lt,
      as_usize-size s,
    )

    left_iff : (left_branches_are_empty spec op ≡ ok true) ↔ (
        (0 < b)
        × ((j : ℕ)
            → j < b
            → sibling s order op.prefix (length op.prefix - b * size) j ≡ spec.empty_child))
    left_iff =
        let small : length op.prefix < 2 ^ 64 = omega (arith, prefix_small) in
        let fits : length op.prefix - b * size + (0 + b) * size ≤ length op.prefix =
          omega (arith, at.prefix_low) in
        let all =
          siblings_are_empty_iff s order op.prefix (length op.prefix - b * size) b 0
            (omega (arith, at.branch-lt)) fits small in
        elim (Bool-cases (b == 0)) [
          | inl first ↦
              rw (left_value, first)
                (λ e. absurd (cc), λ (p, _). absurd (omega (arith, (==_iff b 0).0 first)))
          | inr later ↦
              rw (left_value, later)
                (
                  λ e. (ground arith, λ j h. all.0 e j (omega arith) (omega arith)),
                  λ (p, every). all.1 (λ j lo hi. every j (omega arith)),
                )
        ]

    left-ne-panic : left_branches_are_empty spec op ≢ panic
    left-ne-panic =
        let small : length op.prefix < 2 ^ 64 = omega (arith, prefix_small) in
        let fits : length op.prefix - b * size + (0 + b) * size ≤ length op.prefix =
          omega (arith, at.prefix_low) in
        let safe =
          siblings_are_empty-ne-panic s order op.prefix (length op.prefix - b * size) b 0
            (omega (arith, at.branch-lt)) fits small in
        elim (Bool-cases (b == 0)) [
          | inl first ↦ rw (left_value, first) (λ e. cc)
          | inr later ↦ rw (left_value, later) safe
        ]

    -- The suffix of a step holds `n - 1 - b` children; the test lets one through.
    one_right : length op.suffix ≡ size → n - 1 - b ≢ 0 → b + 2 ≡ n
    one_right e h = grind (arith, at.suffix_rest, at.branch-lt, s.size_pos)

    sibling-whole : length op.suffix ≡ size → sibling s order op.suffix 0 0 ≡ op.suffix
    sibling-whole e =
        let start : 0 + 0 * size ≡ 0 = omega arith in
        ap (λ k. take size (drop k op.suffix)) start ∙ take-all op.suffix size e

    right_siblings_iff :
        length op.suffix ≡ size
        → n - 1 - b ≡ 1
        → (siblings_are_empty spec op.suffix 0 (n - 1 - b) 0 ≡ ok true)
          ↔ (op.suffix ≡ spec.empty_child)
    right_siblings_iff e one =
        let iff =
          siblings_are_empty_iff s order op.suffix 0 1 0 (omega (arith, s.has_child))
            (omega (arith)) (omega (arith, mul-le s 1 s.has_child, s.no_overflow)) in
        rw one (
          λ ok_true. sym (sibling-whole e) ∙ iff.0 ok_true 0 (omega arith) (omega arith),
          λ same.
              iff.1 (λ j lo hi.
                ap (sibling s order op.suffix 0) (omega arith) ∙ sibling-whole e ∙ same),
        )

    right_iff :
        (right_branches_are_empty spec op ≡ ok true)
        ↔ ((b + 2 ≡ n) × (op.suffix ≡ spec.empty_child))
    right_iff = elim (Bool-cases (n - 1 - b == 0)) [
      | inl last ↦
          rw (right_value, last)
            (λ e. absurd (cc), λ (p, _). absurd (omega (arith, (==_iff (n - 1 - b) 0).0 last)))
      | inr inner ↦ elim (Bool-cases (length op.suffix == size)) [
        | inl whole ↦
            let len = (==_iff (length op.suffix) size).0 whole in
            let two = one_right len (ground (arith, ==_iff (n - 1 - b) 0)) in
            let iff = right_siblings_iff len (omega (arith, two)) in
            rw (right_value, inner, whole) (λ e. (two, iff.0 e), λ (_, same). iff.1 same)
        | inr other ↦
            rw (right_value, inner, other)
              (
                λ e. absurd (cc),
                λ (two, _). absurd (ground (arith, ==_iff (length op.suffix) size, one_suffix two)),
              )
      ]
    ]
      where
        one_suffix : b + 2 ≡ n → length op.suffix ≡ size
        one_suffix two =
            let one : n - 1 - b ≡ 1 = omega arith in
            at.suffix_rest ∙ ap (λ k. size * k) one ∙ omega arith

    right-ne-panic : right_branches_are_empty spec op ≢ panic
    right-ne-panic = elim (Bool-cases (n - 1 - b == 0)) [
      | inl last ↦ rw (right_value, last) (λ e. cc)
      | inr inner ↦ elim (Bool-cases (length op.suffix == size)) [
        | inl whole ↦
            let len = (==_iff (length op.suffix) size).0 whole in
            let two = one_right len (ground (arith, ==_iff (n - 1 - b) 0)) in
            let one : n - 1 - b ≡ 1 = omega (arith, two) in
            rw (right_value, inner, whole)
              (rw one (
                siblings_are_empty-ne-panic s order op.suffix 0 1 0 (omega (arith, s.has_child))
                  (omega arith) (omega (arith, mul-le s 1 s.has_child, s.no_overflow))))
        | inr other ↦ rw (right_value, inner, other) (λ e. cc)
      ]
    ]

  -- For a sized spec whose child order names every branch (`IsSized`, `HoldsBranches`),
  -- `left_branches_are_empty` says yes exactly if the step descends to a branch other than the first
  -- and each child to its left, read from the end of the prefix, is the spec's empty child.
  pub left_branches_are_empty_iff :
      (op : InnerOp)
      → (left_branches_are_empty spec op ≡ ok true) ↔ (
          (b : ℕ) × IsAt n size min max op b
          × (0 < b)
          × ((j : ℕ)
              → j < b
              → sibling s order op.prefix (length op.prefix - b * size) j ≡ spec.empty_child))
  left_branches_are_empty_iff op = (
    λ e.
        let (b, at) = located_left op e in let (p, all) = (left_iff op b at).0 e in (b, at, p, all),
    λ (b, at, p, all). (left_iff op b at).1 (p, all),
  )

  -- For a sized spec whose child order names every branch (`IsSized`, `HoldsBranches`),
  -- `right_branches_are_empty` says yes exactly if the step descends to the last branch but one and
  -- its whole suffix is the spec's empty child.
  pub right_branches_are_empty_iff :
      (op : InnerOp)
      → (right_branches_are_empty spec op ≡ ok true)
        ↔ ((b : ℕ) × IsAt n size min max op b × (b + 2 ≡ n) × (op.suffix ≡ spec.empty_child))
  right_branches_are_empty_iff op = (
    λ e.
        let (b, at) = located_right op e in
        let (two, same) = (right_iff op b at).0 e in (b, at, two, same),
    λ (b, at, two, same). (right_iff op b at).1 (two, same),
  )

  -- Neither slices out of bounds.
  pub left_branches_are_empty-ne-panic : (op : InnerOp) → left_branches_are_empty spec op ≢ panic
  left_branches_are_empty-ne-panic op =
      unfold left_branches_are_empty in bind-ne-panic op _ (λ b at. left-ne-panic op b at)

  pub right_branches_are_empty-ne-panic : (op : InnerOp) → right_branches_are_empty spec op ≢ panic
  right_branches_are_empty-ne-panic op =
      unfold right_branches_are_empty in bind-ne-panic op _ (λ b at. right-ne-panic op b at)
