-- ===== src/Verify/Neighbor/Fork.antt =====
-- Where two paths part: `ensure_left_neighbor` of rust/src/verify.rs.
use mathlib.Core.List.{reverse-reverse}
use ics.Prelude.{
  All-reverse, ℕ, suc, ◌+◌, ◌<◌, ◌≡◌, refl, sym, ap, ◌∙◌, ◌↔◌, inl, inr, ◌≢◌, true, false, ◌&&◌,
  List, [], ◌∷◌, reverse, All, arith, Bool-cases, subst, and-eq-true,
}
use ics.Prelude.Bytes.{bytes_eq, bytes_eq_iff}
use ics.Prelude.Int.{ℤ, pos, ◌+ℤ◌, +ℤ-pos, wrap32, wrap32-pos, eqb_ℤ, eqb_ℤ_iff}
use ics.Prelude.Result.{
  Error, Result-cases, Result, ok, err, panic, ◌>>=◌, ◌>>◌, ensure, >>=-eq-ok, >>=-ne-panic,
  >>-eq-ok, ensure_iff, ensure-ne-panic, not_left_neighbor, ok_inj,
}
use ics.Proto.Types.{InnerOp, InnerSpec}
use ics.Verify.Shape.{IsSized, n-lt}
use ics.Verify.Padding.{order_from_padding}
use ics.Verify.Padding.Order.{
  HoldsBranches, IsAt, order_from_padding_iff, order_from_padding-IsAt, order_from_padding-ne-panic,
}
use ics.Verify.Neighbor.{
  ensure_left_most, ensure_right_most, ensure_left_neighbor, diverge, is_left_step, Divergence,
}
use ics.Verify.Neighbor.Edge.{
  IsFirst, IsLast, ensure_left_most_iff, ensure_right_most_iff, ensure_left_most-ne-panic,
  ensure_right_most-ne-panic,
}

-- The two steps put the same bytes around their child. Their hash operations are not compared.
abbrev pub SameStep : InnerOp → InnerOp → Type 0
SameStep l r = (l.prefix ≡ r.prefix) × (l.suffix ≡ r.suffix)

-- Two paths, read from the root, and where they part.
pub data Forks : List InnerOp → List InnerOp → Divergence → Type 0 where
  apart :
      {l r : InnerOp} {left right : List InnerOp}
      → ¬ SameStep l r
      → Forks
          (l ∷ left)
          (r ∷ right)
          (record { top_left = l; top_right = r; below_left = left; below_right = right })
  shared :
      {l r : InnerOp} {left right : List InnerOp} {d : Divergence}
      → SameStep l r
      → Forks left right d
      → Forks (l ∷ left) (r ∷ right) d

-- Two paths, read from the root, of which one is used up before they part.
pub data RunsOut : List InnerOp → List InnerOp → Type 0 where
  left_ends : {right : List InnerOp} → RunsOut [] right
  right_ends : {left : List InnerOp} → RunsOut left []
  goes_on :
      {l r : InnerOp} {left right : List InnerOp}
      → SameStep l r
      → RunsOut left right
      → RunsOut (l ∷ left) (r ∷ right)

SameStep-iff :
    (l r : InnerOp)
    → ((bytes_eq l.prefix r.prefix && bytes_eq l.suffix r.suffix) ≡ true) ↔ SameStep l r
SameStep-iff l r = ground (
  arith,
  and-eq-true (bytes_eq l.prefix r.prefix) (bytes_eq l.suffix r.suffix),
  bytes_eq_iff l.prefix r.prefix,
  bytes_eq_iff l.suffix r.suffix,
)

SameStep-not :
    (l r : InnerOp)
    → (bytes_eq l.prefix r.prefix && bytes_eq l.suffix r.suffix) ≡ false
    → ¬ SameStep l r
SameStep-not l r differ same = absurd (cc (differ, (SameStep-iff l r).1 same))

diverge_sound :
    (left right : List InnerOp) (d : Divergence) → diverge left right ≡ ok d → Forks left right d
unfolding diverge
diverge_sound [] right d e = absurd (cc)
diverge_sound (l ∷ left) [] d e = absurd (cc)
diverge_sound (l ∷ left) (r ∷ right) d e =
    elim (Bool-cases (bytes_eq l.prefix r.prefix && bytes_eq l.suffix r.suffix)) [
      | inl same ↦ shared ((SameStep-iff l r).0 same) (diverge_sound left right d (rw same at e))
      | inr differ ↦
          subst (Forks (l ∷ left) (r ∷ right)) (ok_inj (rw differ at e))
            (apart (SameStep-not l r differ))
    ]

diverge_complete :
    (left right : List InnerOp) (d : Divergence) → Forks left right d → diverge left right ≡ ok d
unfolding diverge
diverge_complete [] right d f = elim f [ ]
diverge_complete (l ∷ left) [] d f = elim f [ ]
diverge_complete (l ∷ left) (r ∷ right) d (apart differ) =
    elim (Bool-cases (bytes_eq l.prefix r.prefix && bytes_eq l.suffix r.suffix)) [
      | inl same ↦ absurd (differ ((SameStep-iff l r).0 same))
      | inr other ↦ rw other
    ]
diverge_complete (l ∷ left) (r ∷ right) d (shared same f) =
    rw ((SameStep-iff l r).1 same) (diverge_complete left right d f)

no_ok_panic : {d : Divergence} → ok d ≡ panic → ⊥
no_ok_panic e = cc

diverge_panics : (left right : List InnerOp) → diverge left right ≡ panic → RunsOut left right
unfolding diverge
diverge_panics [] right e = left_ends
diverge_panics (l ∷ left) [] e = right_ends
diverge_panics (l ∷ left) (r ∷ right) e =
    elim (Bool-cases (bytes_eq l.prefix r.prefix && bytes_eq l.suffix r.suffix)) [
      | inl same ↦ goes_on ((SameStep-iff l r).0 same) (diverge_panics left right (rw same at e))
      | inr differ ↦ absurd (no_ok_panic (rw differ at e))
    ]

diverge-eq-panic : (left right : List InnerOp) → RunsOut left right → diverge left right ≡ panic
unfolding diverge
diverge-eq-panic [] right left_ends = refl
diverge-eq-panic [] [] right_ends = refl
diverge-eq-panic (l ∷ left) [] right_ends = refl
diverge-eq-panic (l ∷ left) (r ∷ right) (goes_on same f) =
    rw ((SameStep-iff l r).1 same) (diverge-eq-panic left right f)

module _ (P : InnerOp → Type 0) where
  All-reverse_iff : (path : List InnerOp) → All P (reverse path) ↔ All P path
  All-reverse_iff path = (
    λ a. subst (All P) (reverse-reverse path) (All-reverse P (reverse path) a),
    All-reverse P path,
  )

module _ {spec : InnerSpec} {n size min max : ℕ} (s : IsSized spec n size min max)
    (order : HoldsBranches spec n) where
  -- The two steps descend to a branch and to the next one.
  abbrev pub IsLeftStep : InnerOp → InnerOp → Type 0
  IsLeftStep l r = (b : ℕ) × IsAt n size min max l b × IsAt n size min max r (suc b)

  next_branch : (b : ℕ) → b < n → wrap32 (pos b +ℤ pos 1) ≡ pos (suc b)
  next_branch b h =
      ap wrap32 (+ℤ-pos b 1) ∙ wrap32-pos (b + 1) (omega (arith, n-lt s)) ∙ ap pos (omega arith)

  next_of_test :
      (i j : ℤ) (b c : ℕ)
      → b < n
      → i ≡ pos b
      → j ≡ pos c
      → ok (eqb_ℤ (wrap32 (i +ℤ pos 1)) j) ≡ ok true
      → c ≡ suc b
  next_of_test i j b c h bi cj e =
      let same = (eqb_ℤ_iff (wrap32 (i +ℤ pos 1)) j).0 (ok_inj e) in
      let next : pos (suc b) ≡ pos c =
        sym (next_branch b h) ∙ ap (λ t. wrap32 (t +ℤ pos 1)) (sym bi) ∙ same ∙ cj in
      ground (arith, next)

  is_left_step_iff : (l r : InnerOp) → (is_left_step spec l r ≡ ok true) ↔ IsLeftStep l r
  unfolding is_left_step
  is_left_step_iff l r = (
    λ e.
        let (i, left_found, e₁) = >>=-eq-ok (order_from_padding spec l) _ e in
        let (j, right_found, e₂) = >>=-eq-ok (order_from_padding spec r) _ e₁ in
        let (b, bi, at_l) = order_from_padding-IsAt s order l i left_found in
        let (c, cj, at_r) = order_from_padding-IsAt s order r j right_found in
        (
          b,
          at_l,
          subst (IsAt n size min max r) (next_of_test i j b c at_l.branch-lt bi cj e₂) at_r,
        ),
    λ (b, at_l, at_r). rw (
      (order_from_padding_iff s order l b).1 at_l,
      (order_from_padding_iff s order r (suc b)).1 at_r,
      next_branch b at_l.branch-lt,
      (eqb_ℤ_iff (pos (suc b)) (pos (suc b))).1 refl,
    ),
  )

  is_left_step-ne-panic : (l r : InnerOp) → is_left_step spec l r ≢ panic
  unfolding is_left_step
  is_left_step-ne-panic l r =
      >>=-ne-panic (order_from_padding spec l) _ (order_from_padding-ne-panic s order l) (λ i _.
        >>=-ne-panic (order_from_padding spec r) _ (order_from_padding-ne-panic s order r)
          (λ j _ e. cc))

  -- From the root down the paths agree, part at two children next to each other, and below these the
  -- left path keeps to the right and the right path to the left.
  pub record AreNeighbors (left right : List InnerOp) : Type 0 where
    pub fork : Divergence
    pub forks : Forks (reverse left) (reverse right) fork
    pub adjacent : IsLeftStep fork.top_left fork.top_right
    pub keeps_right : All (IsLast s order) fork.below_left
    pub keeps_left : All (IsFirst s order) fork.below_right

  -- For a sized spec whose child order names every branch, `ensure_left_neighbor` accepts exactly the
  -- paths of neighbours.
  pub ensure_left_neighbor_iff :
      (left right : List InnerOp)
      → (ensure_left_neighbor spec left right ≡ ok tt) ↔ AreNeighbors left right
  unfolding ensure_left_neighbor
  ensure_left_neighbor_iff left right = (
    λ e.
        let (d, forked, e₁) = >>=-eq-ok (diverge (reverse left) (reverse right)) _ e in
        let (b, stepped, e₂) = >>=-eq-ok (is_left_step spec d.top_left d.top_right) _ e₁ in
        let (t, e₃) = >>-eq-ok (ensure b not_left_neighbor) _ e₂ in
        let (l, r) = >>-eq-ok (ensure_right_most spec (reverse d.below_left)) _ e₃ in
        record {
          fork = d;
          forks = diverge_sound (reverse left) (reverse right) d forked;
          adjacent =
              (is_left_step_iff d.top_left d.top_right).0
                (stepped ∙ ap ok ((ensure_iff b not_left_neighbor).0 t));
          keeps_right =
              (All-reverse_iff (IsLast s order) d.below_left).0
                ((ensure_right_most_iff s order _).0 l);
          keeps_left =
              (All-reverse_iff (IsFirst s order) d.below_right).0
                ((ensure_left_most_iff s order _).0 r);
        },
    λ a. rw (
      diverge_complete (reverse left) (reverse right) a.fork a.forks,
      (is_left_step_iff a.fork.top_left a.fork.top_right).1 a.adjacent,
      (ensure_right_most_iff s order (reverse a.fork.below_left)).1
          (All-reverse (IsLast s order) a.fork.below_left a.keeps_right),
      (ensure_left_most_iff s order (reverse a.fork.below_right)).1
          (All-reverse (IsFirst s order) a.fork.below_right a.keeps_left),
    ),
  )

  after_fork-ne-panic :
      (d : Divergence)
      → (is_left_step spec d.top_left d.top_right >>= λ is_left.
          ensure is_left not_left_neighbor
          >> (ensure_right_most spec (reverse d.below_left)
              >> ensure_left_most spec (reverse d.below_right)))
        ≢ panic
  after_fork-ne-panic d =
      >>=-ne-panic (is_left_step spec d.top_left d.top_right) _
        (is_left_step-ne-panic d.top_left d.top_right)
        (λ b _.
          >>=-ne-panic (ensure b not_left_neighbor) _ (ensure-ne-panic b not_left_neighbor) (λ _ _.
            >>=-ne-panic (ensure_right_most spec (reverse d.below_left)) _
              (ensure_right_most-ne-panic s order (reverse d.below_left))
              (λ _ _. ensure_left_most-ne-panic s order (reverse d.below_right))))

  pub ensure_left_neighbor_panics_iff :
      (left right : List InnerOp)
      → (ensure_left_neighbor spec left right ≡ panic) ↔ RunsOut (reverse left) (reverse right)
  unfolding ensure_left_neighbor
  ensure_left_neighbor_panics_iff left right = (
    λ e. elim (Result-cases (diverge (reverse left) (reverse right))) [
      | inl (d, forked) ↦ absurd (after_fork-ne-panic d (rw forked at e))
      | inr (inl (x, failed)) ↦ absurd (no_err_panic (rw failed at e))
      | inr (inr panics) ↦ diverge_panics (reverse left) (reverse right) panics
    ],
    λ out. rw (diverge-eq-panic (reverse left) (reverse right) out),
  )
    where
      no_err_panic : {x : Error} → ◌≡◌ {A = Result (Unit {0})} (err x) panic → ⊥
      no_err_panic e = cc
