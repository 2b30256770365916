-- ===== src/Verify/Padding/Order.antt =====
-- `order_from_padding` of rust/src/verify.rs, against a description of the branch that a step takes.
use ics.Prelude.{
  ℕ, zero, suc, ◌+◌, ◌-◌, ◌*◌, ◌≤◌, ◌<◌, ◌≡◌, sym, ap, ◌∙◌, ◌↔◌, inl, inr, ◌≢◌, true, false, some,
  List, [], ◌∷◌, length, leb→le, le→leb, ==_iff, and-eq-true, arith, Bool-cases, subst,
}
use ics.Prelude.Int.{
  ℤ, pos, pos_part, eqb_ℤ_iff, as_i32, as_usize, wrap32-pos, as_usize-pos, usize_sub, usize_sub-eq,
  usize_mul, usize_mul-eq,
}
use ics.Prelude.Result.{ok, panic, ok_inj}
use ics.Proto.Types.{InnerOp, InnerSpec}
use ics.Verify.Shape.{
  IsSized, mul-le, n-lt, last_branch, as_usize-size, branch_offset, as_usize-offset,
}
use ics.Verify.Padding.{
  Padding, has_padding, find_branch, get_padding, order_from, order_from_padding,
}
use mathlib.Core.List.{Memᴰ}
use native.Mathlib.Decide.{dec_lt}

-- The child order names every branch, in whatever order.
abbrev pub HoldsBranches : InnerSpec → ℕ → Type 0
HoldsBranches spec n = (b : ℕ) → b < n → Memᴰ (pos b) spec.child_order

-- What `find` returns is the branch itself, not its place in the child order.
find_branch-of_mem : (b : ℤ) (order : List ℤ) → Memᴰ b order → find_branch b order ≡ some b
unfolding find_branch
find_branch-of_mem b [] m = elim m [ ]
find_branch-of_mem b (x ∷ xs) (Memᴰ.head e) = ground (arith, eqb_ℤ_iff x b)
find_branch-of_mem b (x ∷ xs) (Memᴰ.tail m) =
    ground (arith, eqb_ℤ_iff x b, find_branch-of_mem b xs m)

-- The step descends to branch `b`: `b` children stand in its prefix, the rest in its suffix.
pub record IsAt (n size min max : ℕ) (op : InnerOp) (b : ℕ) : Type 0 where
  pub branch-lt : b < n
  pub prefix_low : b * size + min ≤ length op.prefix
  pub prefix_high : length op.prefix ≤ b * size + max
  pub suffix_rest : length op.suffix ≡ size * (n - 1 - b)

module _ {spec : InnerSpec} {n size min max : ℕ} (s : IsSized spec n size min max)
    (order : HoldsBranches spec n) where
  pub find_branch-eq : (b : ℕ) → b < n → find_branch (pos b) spec.child_order ≡ some (pos b)
  find_branch-eq b h = find_branch-of_mem (pos b) spec.child_order (order b h)

  abbrev pub padding_of : ℕ → Padding
  padding_of b = record {
    min_prefix = b * size + min;
    max_prefix = b * size + max;
    suffix = size * (n - 1 - b);
  }

  pub rest-eq :
      (b : ℕ)
      → b < n
      → usize_sub (usize_sub (length spec.child_order) 1) (as_usize (pos b)) ≡ n - 1 - b
  rest-eq b h =
      ap (λ t. usize_sub t (as_usize (pos b))) (last_branch s)
      ∙ ap (usize_sub (n - 1)) (as_usize-pos b (omega (arith, n-lt s)))
      ∙ usize_sub-eq (n - 1) b (omega arith) (omega (arith, n-lt s))

  suffix-eq :
      (b : ℕ)
      → b < n
      → usize_mul
          (as_usize spec.child_size)
          (usize_sub (usize_sub (length spec.child_order) 1) (as_usize (pos b)))
        ≡ size * (n - 1 - b)
  suffix-eq b h =
      ap (λ t. usize_mul t (usize_sub (usize_sub (length spec.child_order) 1) (as_usize (pos b))))
        (as_usize-size s)
      ∙ ap (usize_mul size) (rest-eq b h)
      ∙ usize_mul-eq size (n - 1 - b)
          (omega (arith, mul-le s (n - 1 - b) (omega arith), s.no_overflow))

  pub get_padding-eq : (b : ℕ) → b < n → get_padding spec (pos b) ≡ ok (padding_of b)
  unfolding get_padding
  get_padding-eq b h =
      let at-le : b ≤ n = omega arith in
      rw (find_branch-eq b h, branch_offset s b at-le, s.min_prefix, s.max_prefix)
        (rw (
          as_usize-offset s b min at-le s.min-le-max,
          as_usize-offset s b max at-le (omega arith),
          suffix-eq b h,
        ))

  pub has_padding_iff :
      (op : InnerOp) (b : ℕ)
      → b < n
      → (has_padding op (padding_of b) ≡ true) ↔ IsAt n size min max op b
  unfolding has_padding
  has_padding_iff op b h = (
    λ e.
        let (bounds, rest) = (and-eq-true _ _).0 e in
        let (lo, hi) = (and-eq-true _ _).0 bounds in
        record {
          branch-lt = h;
          prefix_low = leb→le _ _ lo;
          prefix_high = leb→le _ _ hi;
          suffix_rest = (==_iff _ _).0 rest;
        },
    λ a. (and-eq-true _ _).1 (
      (and-eq-true _ _).1 (le→leb _ _ a.prefix_low, le→leb _ _ a.prefix_high),
      (==_iff _ _).1 a.suffix_rest,
    ),
  )

  le_of_IsAt :
      (op : InnerOp) (b c : ℕ) → IsAt n size min max op b → IsAt n size min max op c → b ≤ c
  le_of_IsAt op b c p q = grind (arith, p.prefix_low, q.prefix_high, s.max-lt-min)

  -- A step descends to one branch at most.
  pub IsAt-unique :
      (op : InnerOp) (b c : ℕ) → IsAt n size min max op b → IsAt n size min max op c → b ≡ c
  IsAt-unique op b c p q = omega (arith, le_of_IsAt op b c p q, le_of_IsAt op c b q p)

  order_from_sound :
      (op : InnerOp) (rounds branch : ℕ) (idx : ℤ)
      → branch + rounds ≤ n
      → order_from spec op rounds branch ≡ ok idx
      → (b : ℕ) × (idx ≡ pos b) × IsAt n size min max op b
  unfolding order_from
  order_from_sound op zero branch idx h e = absurd (ground arith)
  order_from_sound op (suc rounds) branch idx h e =
      let here : branch < n = omega arith in
      elim (Bool-cases (has_padding op (padding_of branch))) [
        | inl fits ↦ (
          branch,
          sym (ok_inj (rw (get_padding-eq branch here, fits) at e)),
          (has_padding_iff op branch here).0 fits,
        )
        | inr no_fit ↦
            order_from_sound op rounds (suc branch) idx (omega arith)
              (rw (get_padding-eq branch here, no_fit) at e)
      ]

  order_from_complete :
      (op : InnerOp) (rounds branch b : ℕ)
      → branch + rounds ≡ n
      → branch ≤ b
      → IsAt n size min max op b
      → order_from spec op rounds branch ≡ ok (pos b)
  unfolding order_from
  order_from_complete op zero branch b h le p = absurd (omega (arith, p.branch-lt))
  order_from_complete op (suc rounds) branch b h le p =
      let here : branch < n = omega arith in
      elim (Bool-cases (has_padding op (padding_of branch))) [
        | inl fits ↦
            rw (get_padding-eq branch here, fits)
              (ap (λ k. ok (pos k))
                (IsAt-unique op branch b ((has_padding_iff op branch here).0 fits) p))
        | inr no_fit ↦
            rw (get_padding-eq branch here, no_fit)
              (order_from_complete op rounds (suc branch) b (omega arith) (later no_fit) p)
      ]
    where
      later : has_padding op (padding_of branch) ≡ false → suc branch ≤ b
      later no_fit = elim (dec_lt branch b) [
        | yes below ↦ below
        | no above ↦
            let same : b ≡ branch = omega arith in
            let fits =
              (has_padding_iff op branch (omega arith)).1 (subst (IsAt n size min max op) same p) in
            absurd (ground arith)
      ]

  rounds-eq : pos_part (as_i32 (length spec.child_order)) ≡ n
  rounds-eq = ap (λ t. pos_part (as_i32 t)) s.child_count ∙ ap pos_part (wrap32-pos n (n-lt s))

  -- For a sized spec whose child order names every branch, `order_from_padding` answers `b` exactly
  -- if the step descends to branch `b`.
  pub order_from_padding_iff :
      (op : InnerOp) (b : ℕ) → (order_from_padding spec op ≡ ok (pos b)) ↔ IsAt n size min max op b
  unfolding order_from_padding
  order_from_padding_iff op b = (
    λ e.
        let (c, same, at) =
          order_from_sound op n 0 (pos b) (omega arith)
            (ap (λ k. order_from spec op k 0) (sym rounds-eq) ∙ e) in
        subst (IsAt n size min max op) (ground arith) at,
    λ at.
        ap (λ k. order_from spec op k 0) rounds-eq
        ∙ order_from_complete op n 0 b (omega arith) (omega arith) at,
  )

  order_from-ne-panic :
      (op : InnerOp) (rounds branch : ℕ)
      → branch + rounds ≤ n
      → order_from spec op rounds branch ≢ panic
  unfolding order_from
  order_from-ne-panic op zero branch h = λ e. cc
  order_from-ne-panic op (suc rounds) branch h =
      rw (get_padding-eq branch (omega arith))
        (elim (Bool-cases (has_padding op (padding_of branch))) [
          | inl fits ↦ rw fits (λ e. cc)
          | inr no_fit ↦ rw no_fit (order_from-ne-panic op rounds (suc branch) (omega arith))
        ])

  pub order_from_padding-ne-panic : (op : InnerOp) → order_from_padding spec op ≢ panic
  unfolding order_from_padding
  order_from_padding-ne-panic op = rw rounds-eq (order_from-ne-panic op n 0 (omega arith))

  -- Whatever it answers is a branch.
  pub order_from_padding-IsAt :
      (op : InnerOp) (idx : ℤ)
      → order_from_padding spec op ≡ ok idx
      → (b : ℕ) × (idx ≡ pos b) × IsAt n size min max op b
  unfolding order_from_padding
  order_from_padding-IsAt op idx e =
      order_from_sound op n 0 idx (omega arith)
        (ap (λ k. order_from spec op k 0) (sym rounds-eq) ∙ e)
