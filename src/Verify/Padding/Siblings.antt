-- ===== src/Verify/Padding/Siblings.antt =====
-- The loop of `left_branches_are_empty` and `right_branches_are_empty` of rust/src/verify.rs over the
-- children beside a step.
use ics.Prelude.{
  ℕ, zero, suc, ◌+◌, ◌*◌, ◌^◌, ◌≤◌, ◌<◌, ◌≡◌, refl, sym, ap, ◌↔◌, inl, inr, ◌≢◌, true, false, not,
  length, take, drop, le→leb, if◌then◌else◌, arith, Bool-cases, subst,
}
use ics.Prelude.Bytes.{Bytes, bytes_eq, bytes_eq_iff}
use ics.Prelude.Int.{
  pos, as_usize, wrap32-pos, as_usize-pos, usize_add, usize_add-eq, usize_mul, usize_mul-eq,
}
use ics.Prelude.Result.{ok, panic}
use ics.Proto.Types.{InnerSpec}
use ics.Verify.Shape.{IsSized, n-lt, as_usize-size}
use ics.Verify.Padding.{slice, siblings_are_empty}
use ics.Verify.Padding.Order.{HoldsBranches, find_branch-eq}
use native.Mathlib.Decide.{dec_lt}

slice-eq :
    (bytes : Bytes) (from size : ℕ)
    → from + size ≤ length bytes
    → slice bytes from (from + size) ≡ ok (take size (drop from bytes))
unfolding slice
slice-eq bytes from size h =
    rw (le→leb from (from + size) (omega arith), le→leb (from + size) (length bytes) h)
      (ap (λ k. ok (take k (drop from bytes))) (omega arith))

module _ {spec : InnerSpec} {n size min max : ℕ} (s : IsSized spec n size min max)
    (order : HoldsBranches spec n) where
  -- The bytes of sibling `j` in a text whose siblings begin at `start`.
  abbrev pub sibling : Bytes → ℕ → ℕ → Bytes
  sibling bytes start j = take size (drop (start + j * size) bytes)

  slice-sibling :
      (bytes : Bytes) (start j : ℕ)
      → j < n
      → start + j * size + size ≤ length bytes
      → length bytes < 2 ^ 64
      → slice bytes (usize_add start (usize_mul (as_usize (pos j)) (as_usize spec.child_size))) (
          usize_add
            (usize_add start (usize_mul (as_usize (pos j)) (as_usize spec.child_size)))
            (as_usize spec.child_size))
        ≡ ok (sibling bytes start j)
  slice-sibling bytes start j h fits small =
      rw
        (
          as_usize-size s,
          as_usize-pos j (omega (arith, n-lt s)),
          usize_mul-eq j size (omega arith),
          usize_add-eq start (j * size) (omega arith),
          usize_add-eq (start + j * size) size (omega arith),
        )
        (slice-eq bytes (start + j * size) size fits)

  siblings_step :
      (bytes : Bytes) (start rounds i : ℕ)
      → i < n
      → start + i * size + size ≤ length bytes
      → length bytes < 2 ^ 64
      → siblings_are_empty spec bytes start (suc rounds) i ≡ (
          if not (bytes_eq spec.empty_child (sibling bytes start i))
          then ok false
          else siblings_are_empty spec bytes start rounds (suc i))
  unfolding siblings_are_empty
  siblings_step bytes start rounds i h fits small =
      rw (wrap32-pos i (omega (arith, n-lt s)), find_branch-eq s order i h)
        (rw (slice-sibling bytes start i h fits small))

  -- The siblings `i` to `i + rounds - 1` are all the empty child.
  abbrev AllEmpty : Bytes → ℕ → ℕ → ℕ → Type 0
  AllEmpty bytes start rounds i =
      (j : ℕ) → i ≤ j → j < i + rounds → sibling bytes start j ≡ spec.empty_child

  room_here :
      (bytes : Bytes) (start rounds i : ℕ)
      → start + (i + suc rounds) * size ≤ length bytes
      → start + i * size + size ≤ length bytes
  room_here bytes start rounds i h = grind arith

  AllEmpty-cons :
      (bytes : Bytes) (start rounds i : ℕ)
      → sibling bytes start i ≡ spec.empty_child
      → AllEmpty bytes start rounds (suc i)
      → AllEmpty bytes start (suc rounds) i
  AllEmpty-cons bytes start rounds i here rest j lo hi = elim (dec_lt i j) [
    | yes above ↦ rest j above (omega arith)
    | no equal ↦ subst (λ k. sibling bytes start k ≡ spec.empty_child) (omega arith) here
  ]

  pub siblings_are_empty_iff :
      (bytes : Bytes) (start rounds i : ℕ)
      → i + rounds ≤ n
      → start + (i + rounds) * size ≤ length bytes
      → length bytes < 2 ^ 64
      → (siblings_are_empty spec bytes start rounds i ≡ ok true) ↔ AllEmpty bytes start rounds i
  siblings_are_empty_iff bytes start zero i h fits small =
      (λ e j lo hi. absurd (omega arith), λ all. unfold siblings_are_empty in refl)
  siblings_are_empty_iff bytes start (suc rounds) i h fits small =
      let ih =
        siblings_are_empty_iff bytes start rounds (suc i) (omega arith) (grind arith) small in
      let step =
        siblings_step bytes start rounds i (omega arith) (room_here bytes start rounds i fits)
          small in
      elim (Bool-cases (bytes_eq spec.empty_child (sibling bytes start i))) [
        | inl same ↦
            rw (step, same)
              (
                λ e.
                    AllEmpty-cons bytes start rounds i
                      (sym ((bytes_eq_iff spec.empty_child (sibling bytes start i)).0 same))
                      (ih.0 e),
                λ all. ih.1 (λ j lo hi. all j (omega arith) (omega arith)),
              )
        | inr differ ↦
            rw (step, differ)
              (
                λ e. absurd (cc),
                λ all. absurd (
                    ground (
                      arith,
                      all i (omega arith) (omega arith),
                      (bytes_eq_iff spec.empty_child (sibling bytes start i)),
                    )),
              )
      ]

  pub siblings_are_empty-ne-panic :
      (bytes : Bytes) (start rounds i : ℕ)
      → i + rounds ≤ n
      → start + (i + rounds) * size ≤ length bytes
      → length bytes < 2 ^ 64
      → siblings_are_empty spec bytes start rounds i ≢ panic
  siblings_are_empty-ne-panic bytes start zero i h fits small = λ e. unfold siblings_are_empty in cc
  siblings_are_empty-ne-panic bytes start (suc rounds) i h fits small =
      let ih =
        siblings_are_empty-ne-panic bytes start rounds (suc i) (omega arith) (grind arith) small in
      rw
        (siblings_step bytes start rounds i (omega arith) (room_here bytes start rounds i fits)
          small)
        (elim (Bool-cases (bytes_eq spec.empty_child (sibling bytes start i))) [
          | inl same ↦ rw same ih
          | inr differ ↦ rw differ (λ e. cc)
        ])
