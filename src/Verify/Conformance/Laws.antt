-- ===== src/Verify/Conformance/Laws.antt =====
-- `ensure_leaf` and `ensure_inner` of rust/src/verify.rs, against a description of the nodes that they
-- are to accept.
use ics.Prelude.{
  ℕ, ◌+◌, ◌-◌, ◌*◌, ◌%◌, ◌≤◌, ◌≡◌, refl, sym, ap, ◌∙◌, ◌≢◌, ◌↔◌, inl, inr, Bool, true, false, not,
  leb, ◌==◌, ◌<◌, if◌then◌else◌, [], ◌∷◌, ◌++◌, length, length-append, take, drop, take-append-drop,
  take-append_left, ltb, leb→le, le→leb, ==_iff, ltb→lt, arith, Bool-cases, subst,
}
use ics.Prelude.Bytes.{Bytes, bytes_eq, bytes_eq_iff}
use ics.Prelude.Int.{
  ℤ, pos, eqb_ℤ_iff, ltb_ℤ, ◌+ℤ◌, ◌*ℤ◌, wrap32, as_i32, as_usize, +ℤ-pos, wrap32-pos, as_usize-pos,
}
use ics.Prelude.Result.{Result, ok, ◌>>◌, ensure, ensure_iff, >>-eq-ok, >>-eq-ok_of, Error}
use ics.Proto.Types.{LeafOp, InnerOp, InnerSpec}
use ics.Verify.Conformance.{
  has_prefix, usize_rem, ensure_leaf, ensure_inner_for, max_left_child_bytes,
}
use ics.Verify.Shape.{
  IsSized, mul-le, last_branch, as_usize-size, branch_offset, as_usize-offset, n-lt,
}
use mathlib.Core.List.{append_assoc}
use native.Mathlib.Nat.{add_comm}

-- `bytes` begins with `prefix`.
abbrev pub Begins : Bytes → Bytes → Type 0
Begins prefix bytes = (rest : Bytes) × (bytes ≡ prefix ++ rest)

-- What `has_prefix` answers; the slice that it takes is in bounds.
abbrev pub begins_with : Bytes → Bytes → Bool
begins_with prefix bytes =
    if ltb (length bytes) (length prefix)
    then false
    else bytes_eq prefix (take (length prefix) bytes)

pub has_prefix-eq : (prefix bytes : Bytes) → has_prefix prefix bytes ≡ ok (begins_with prefix bytes)
unfolding has_prefix
has_prefix-eq prefix bytes = elim (Bool-cases (ltb (length bytes) (length prefix))) [
  | inl short ↦ rw short
  | inr long ↦
      let fits : leb (length prefix) (length bytes) ≡ true = ground (arith, long) in rw (long, fits)
]

pub usize_rem-eq : (a b : ℕ) → 0 < b → usize_rem a b ≡ ok (a % b)
usize_rem-eq a b h = let other : (b == 0) ≡ false = ground (arith, h) in rw other

-- `bytes` begins with `prefix` exactly if the answer is yes.
pub begins_with_iff :
    (prefix bytes : Bytes) → (begins_with prefix bytes ≡ true) ↔ Begins prefix bytes
begins_with_iff prefix bytes = (
  λ e. (
    drop (length prefix) bytes,
    sym (take-append-drop (length prefix) bytes)
        ∙ ap (λ t. t ++ drop (length prefix) bytes)
            (sym ((bytes_eq_iff prefix (take (length prefix) bytes)).0 (ground arith))),
  ),
  λ (rest, e). elim (Bool-cases (ltb (length bytes) (length prefix))) [
    | inl short ↦ absurd (
        omega (
          arith,
          ltb→lt (length bytes) (length prefix) short,
          length-append prefix rest,
          ap length e,
        ))
    | inr long ↦ rw long (
        (bytes_eq_iff prefix (take (length prefix) bytes)).1
          (sym (take-append_left prefix rest) ∙ ap (take (length prefix)) (sym e)))
  ],
)

-- Two steps of a chain of `ensure`s.
pub ensure->>_iff {ℓ} :
    {P : Type ℓ} (b : Bool) (e : Error) (m : Result (Unit {0}))
    → ((m ≡ ok tt) ↔ P)
    → ((ensure b e >> m) ≡ ok tt) ↔ ((b ≡ true) × P)
ensure->>_iff b e m h = (
  λ k. let (g, r) = >>-eq-ok (ensure b e) m k in ((ensure_iff b e).0 g, h.0 r),
  λ (g, r). >>-eq-ok_of (ensure b e) m ((ensure_iff b e).1 g) (h.1 r),
)

-- A leaf that has the operations of the leaf spec and a prefix that begins with the spec's.
pub record IsSpecLeaf (leaf leaf_spec : LeafOp) : Type 0 where
  pub hash : leaf_spec.hash ≡ leaf.hash
  pub prehash_key : leaf_spec.prehash_key ≡ leaf.prehash_key
  pub prehash_value : leaf_spec.prehash_value ≡ leaf.prehash_value
  pub length_op : leaf_spec.length ≡ leaf.length
  pub prefix : Begins leaf_spec.prefix leaf.prefix

-- `ensure_leaf` accepts exactly such leaves.
pub ensure_leaf_iff :
    (leaf leaf_spec : LeafOp) → (ensure_leaf leaf leaf_spec ≡ ok tt) ↔ IsSpecLeaf leaf leaf_spec
unfolding ensure_leaf
ensure_leaf_iff leaf leaf_spec =
    let chain =
      ensure->>_iff _ _ _
        (ensure->>_iff _ _ _ (ensure->>_iff _ _ _ (ensure->>_iff _ _ _ (ensure_iff _ _)))) in
    rw (has_prefix-eq leaf_spec.prefix leaf.prefix) (
      λ e.
          let (h, (k, (v, (l, p)))) = chain.0 e in
          record {
            hash = (eqb_ℤ_iff _ _).0 h;
            prehash_key = (eqb_ℤ_iff _ _).0 k;
            prehash_value = (eqb_ℤ_iff _ _).0 v;
            length_op = (eqb_ℤ_iff _ _).0 l;
            prefix = (begins_with_iff leaf_spec.prefix leaf.prefix).0 p;
          },
      λ s. chain.1 (
        (eqb_ℤ_iff _ _).1 s.hash,
        (
          (eqb_ℤ_iff _ _).1 s.prehash_key,
          (
            (eqb_ℤ_iff _ _).1 s.prehash_value,
            (
              (eqb_ℤ_iff _ _).1 s.length_op,
              (begins_with_iff leaf_spec.prefix leaf.prefix).1 s.prefix,
            ),
          ),
        ),
      ),
    )

-- An inner node that fits a sized spec: its prefix is not one of a leaf and has room for at most the
-- `n - 1` children to its left, its suffix holds whole children.
pub record IsSpecInner (inner : InnerOp) (leaf_spec : LeafOp) (inner_spec : InnerSpec)
    (n size min max : ℕ) : Type 0 where
  pub hash : inner.hash ≡ inner_spec.hash
  pub no_leaf : ¬ Begins leaf_spec.prefix inner.prefix
  pub prefix_min : min ≤ length inner.prefix
  pub prefix_max : length inner.prefix ≤ (n - 1) * size + max
  pub suffix_whole : length inner.suffix % size ≡ 0

module _ (inner : InnerOp) (leaf_spec : LeafOp) (inner_spec : InnerSpec) {n size min max : ℕ}
    (s : IsSized inner_spec n size min max) where
  abbrev prefix_bound : ℤ
  prefix_bound = wrap32 (inner_spec.max_prefix_length +ℤ max_left_child_bytes inner_spec)

  left_bytes : max_left_child_bytes inner_spec ≡ pos ((n - 1) * size)
  left_bytes =
      ap (λ t. wrap32 (as_i32 t *ℤ inner_spec.child_size)) (last_branch s)
      ∙ ap (λ t. wrap32 (t *ℤ inner_spec.child_size)) (wrap32-pos (n - 1) (omega (arith, n-lt s)))
      ∙ branch_offset s (n - 1) (omega arith)

  prefix_bound-eq : as_usize prefix_bound ≡ (n - 1) * size + max
  prefix_bound-eq =
      ap (λ t. as_usize (wrap32 (t +ℤ max_left_child_bytes inner_spec))) s.max_prefix
      ∙ ap (λ t. as_usize (wrap32 (pos max +ℤ t))) left_bytes
      ∙ ap (λ t. as_usize (wrap32 t))
          (+ℤ-pos max ((n - 1) * size)
            ∙ ap pos (add_comm max ((n - 1) * size))
            ∙ sym (+ℤ-pos ((n - 1) * size) max))
      ∙ as_usize-offset s (n - 1) max (omega arith) (omega arith)

  min_bound-eq : as_usize inner_spec.min_prefix_length ≡ min
  min_bound-eq =
      ap as_usize s.min_prefix ∙ as_usize-pos min (omega (arith, s.min-le-max, s.no_overflow))

  width_test :
      ltb_ℤ inner_spec.max_prefix_length
        (wrap32 (inner_spec.min_prefix_length +ℤ inner_spec.child_size))
      ≡ true
  width_test =
      let sum : wrap32 (inner_spec.min_prefix_length +ℤ inner_spec.child_size) ≡ pos (min + size) =
        ap (λ t. wrap32 (t +ℤ inner_spec.child_size)) s.min_prefix
        ∙ ap (λ t. wrap32 (pos min +ℤ t)) s.child_size
        ∙ ap wrap32 (+ℤ-pos min size)
        ∙ wrap32-pos (min + size)
            (omega (arith, mul-le s 1 s.has_child, s.min-le-max, s.no_overflow)) in
      rw (sum, s.max_prefix) (ground (arith, s.max-lt-min))

  size_test : ltb_ℤ (pos 0) inner_spec.child_size ≡ true
  size_test = rw s.child_size (ground (arith, s.size_pos))

  -- For a sized spec `ensure_inner` accepts exactly the inner nodes that fit it.
  pub ensure_inner_for_iff :
      (ensure_inner_for inner leaf_spec inner_spec ≡ ok tt)
      ↔ IsSpecInner inner leaf_spec inner_spec n size min max
  unfolding ensure_inner_for
  ensure_inner_for_iff =
      let rem =
        usize_rem-eq (length inner.suffix) (as_usize inner_spec.child_size)
          (rw (as_usize-size s) s.size_pos) in
      let chain = ensure->>_iff _ _ _ (
        ensure->>_iff _ _ _ (
          ensure->>_iff _ _ _
            (ensure->>_iff _ _ _ (ensure->>_iff _ _ _ (ensure->>_iff _ _ _ (ensure_iff _ _)))))) in
      rw (has_prefix-eq leaf_spec.prefix inner.prefix, rem)
        (
          λ e.
              let (h, (l, (lo, (hi, (_, (_, whole)))))) = chain.0 e in
              record {
                hash = (eqb_ℤ_iff _ _).0 h;
                no_leaf = no_leaf_of l;
                prefix_min = subst (λ t. t ≤ length inner.prefix) min_bound-eq (leb→le _ _ lo);
                prefix_max = subst (λ t. length inner.prefix ≤ t) prefix_bound-eq (leb→le _ _ hi);
                suffix_whole =
                    subst (λ t. length inner.suffix % t ≡ 0) (as_usize-size s)
                      ((==_iff _ _).0 whole);
              },
          λ i. chain.1 (
            (eqb_ℤ_iff _ _).1 i.hash,
            (
              no_leaf_test i,
              (
                le→leb _ _ (rw min_bound-eq i.prefix_min),
                (
                  le→leb _ _ (rw prefix_bound-eq i.prefix_max),
                  (size_test, (width_test, (==_iff _ _).1 (rw (as_usize-size s) i.suffix_whole))),
                ),
              ),
            ),
          ),
        )
    where
      no_leaf_of :
          not (begins_with leaf_spec.prefix inner.prefix) ≡ true
          → ¬ Begins leaf_spec.prefix inner.prefix
      no_leaf_of l b = ground (arith, (begins_with_iff leaf_spec.prefix inner.prefix).1 b, l)

      no_leaf_test :
          IsSpecInner inner leaf_spec inner_spec n size min max
          → not (begins_with leaf_spec.prefix inner.prefix) ≡ true
      no_leaf_test i = elim (Bool-cases (begins_with leaf_spec.prefix inner.prefix)) [
        | inl b ↦ absurd (i.no_leaf ((begins_with_iff leaf_spec.prefix inner.prefix).0 b))
        | inr b ↦ rw b
      ]

-- Prefixes of one text: the shorter begins the longer.
pub Begins-of_length_le : (p q r s : Bytes) → length p ≤ length q → p ++ r ≡ q ++ s → Begins p q
Begins-of_length_le [] q r s h e = (q, refl)
Begins-of_length_le (x ∷ p) [] r s h e = absurd (omega arith)
Begins-of_length_le (x ∷ p) (y ∷ q) r s h e =
    let (rest, same) = Begins-of_length_le p q r s (omega arith) (ground arith) in
    (rest, ground arith)

-- For a sized inner spec (`IsSized`), no text is hashed both as a leaf and as an inner node: if the leaf
-- passed `ensure_leaf`, the inner node passed `ensure_inner`, and the spec's leaf prefix is not longer
-- than the shortest inner prefix, then what is hashed for the one, whatever its contents, differs from
-- what is hashed for the other, whatever its child.
pub leaf-ne-inner :
    (leaf leaf_spec : LeafOp) (inner : InnerOp) (inner_spec : InnerSpec) {n size min max : ℕ}
    → IsSized inner_spec n size min max
    → length leaf_spec.prefix ≤ min
    → ensure_leaf leaf leaf_spec ≡ ok tt
    → ensure_inner_for inner leaf_spec inner_spec ≡ ok tt
    → (contents child : Bytes) → leaf.prefix ++ contents ≢ (inner.prefix ++ child) ++ inner.suffix
leaf-ne-inner leaf leaf_spec inner inner_spec s short l i contents child e =
    let (rest, begins) = ((ensure_leaf_iff leaf leaf_spec).0 l).prefix in
    let fits = (ensure_inner_for_iff inner leaf_spec inner_spec s).0 i in
    fits.no_leaf (
      Begins-of_length_le leaf_spec.prefix inner.prefix (rest ++ contents) (child ++ inner.suffix)
        (omega (arith, fits.prefix_min))
        (sym (append_assoc leaf_spec.prefix rest contents)
          ∙ ap (λ t. t ++ contents) (sym begins)
          ∙ e
          ∙ append_assoc inner.prefix child inner.suffix))
