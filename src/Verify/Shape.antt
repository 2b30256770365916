-- ===== src/Verify/Shape.antt =====
-- Inner specs of rust/src/verify.rs whose numbers are natural and small enough that no i32 overflows,
-- with the numbers themselves.
use ics.Prelude.{ℕ, ◌+◌, ◌-◌, ◌*◌, ◌^◌, ◌≤◌, ◌<◌, ◌≡◌, ap, ◌∙◌, length, arith}
use ics.Prelude.Int.{pos, ◌+ℤ◌, ◌*ℤ◌, wrap32, as_usize, usize_sub}
use ics.Prelude.Int.{+ℤ-pos, *ℤ-pos, wrap32-pos, usize_sub-eq, as_usize-pos}
use ics.Proto.Types.{InnerSpec}

-- The numbers of an inner spec: `n` children of `size` bytes, and a prefix of `min` to `max` bytes
-- before the first.
pub record IsSized (spec : InnerSpec) (n size min max : ℕ) : Type 0 where
  pub child_count : length spec.child_order ≡ n
  pub child_size : spec.child_size ≡ pos size
  pub min_prefix : spec.min_prefix_length ≡ pos min
  pub max_prefix : spec.max_prefix_length ≡ pos max
  pub has_child : 0 < n
  pub size_pos : 0 < size
  pub min-le-max : min ≤ max
  pub max-lt-min : max < min + size
  pub no_overflow : n * size + max < 2 ^ 31

module _ {spec : InnerSpec} {n size min max : ℕ} (s : IsSized spec n size min max) where
  -- The bytes of the first `b` children fit too.
  pub mul-le : (b : ℕ) → b ≤ n → b * size ≤ n * size
  mul-le b h = grind arith

  pub n-lt : n < 2 ^ 31
  n-lt = grind (arith, s.size_pos, s.no_overflow)

  pub last_branch : usize_sub (length spec.child_order) 1 ≡ n - 1
  last_branch =
      ap (λ t. usize_sub t 1) s.child_count ∙ usize_sub-eq n 1 s.has_child (omega (arith, n-lt))

  pub as_usize-size : as_usize spec.child_size ≡ size
  as_usize-size =
      ap as_usize s.child_size
      ∙ as_usize-pos size (omega (arith, mul-le 1 s.has_child, s.no_overflow))

  -- `b * child_size` and what is added to it, for a branch `b`.
  pub branch_offset : (b : ℕ) → b ≤ n → wrap32 (pos b *ℤ spec.child_size) ≡ pos (b * size)
  branch_offset b h =
      ap (λ t. wrap32 (pos b *ℤ t)) s.child_size
      ∙ ap wrap32 (*ℤ-pos b size)
      ∙ wrap32-pos (b * size) (omega (arith, mul-le b h, s.no_overflow))

  pub as_usize-offset :
      (b k : ℕ) → b ≤ n → k ≤ max → as_usize (wrap32 (pos (b * size) +ℤ pos k)) ≡ b * size + k
  as_usize-offset b k h hk =
      let small : b * size + k < 2 ^ 31 = omega (arith, mul-le b h, s.no_overflow) in
      ap (λ t. as_usize (wrap32 t)) (+ℤ-pos (b * size) k)
      ∙ ap as_usize (wrap32-pos (b * size + k) small)
      ∙ as_usize-pos (b * size + k) (omega arith)
