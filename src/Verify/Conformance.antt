-- ===== src/Verify/Conformance.antt =====
-- `check_existence_spec` of rust/src/verify.rs and what it calls: a proof's leaf and steps must have
-- the form that the spec asks for.
pub mod Laws
pub mod Checked
pub mod Depth
use ics.Prelude.{
  ℕ, suc, ◌%◌, Bool, true, false, not, ◌&&◌, Option, none, some, List, [], ◌∷◌, length, take, ltb,
  leb, ◌==◌, if◌then◌else◌,
}
use ics.Prelude.Bytes.{Bytes, bytes_eq}
use ics.Prelude.Int.{ℤ, pos, eqb_ℤ, ltb_ℤ, ◌+ℤ◌, ◌*ℤ◌, wrap32, as_i32, as_usize, usize_sub}
use ics.Prelude.Result.{
  Result, ok, err, panic, ◌>>=◌, ◌>>◌, ensure, unexpected_hash, unexpected_prehash_key,
  unexpected_prehash_value, unexpected_length, incorrect_leaf_prefix, inner_with_leaf_prefix,
  inner_prefix_short, inner_prefix_long, bad_child_size, bad_max_prefix_length, malformed_suffix,
  specs_required, too_few_inner_ops, too_many_inner_ops, leaf_or_spec_missing,
}
use ics.Proto.Types.{LeafOp, InnerOp, InnerSpec, ProofSpec, ExistenceProof}
use ics.Proto.Prost.{Prost}
use ics.Api.Prefix.{ensure_leaf_prefix, ensure_inner_prefix}

-- `&bytes[..n]`, which panics if the bytes are too few.
abbrev pub slice_to : Bytes → ℕ → Result Bytes
slice_to bytes n = if leb n (length bytes) then ok (take n bytes) else panic

-- `a % b`, which panics if `b` is 0.
abbrev pub usize_rem : ℕ → ℕ → Result ℕ
usize_rem a b = if b == 0 then panic else ok (a % b)

unfoldable pub has_prefix : Bytes → Bytes → Result Bool
has_prefix prefix bytes =
    if ltb (length bytes) (length prefix)
    then ok false
    else slice_to bytes (length prefix) >>= λ front. ok (bytes_eq prefix front)

unfoldable pub ensure_leaf : LeafOp → LeafOp → Result (Unit {0})
ensure_leaf leaf leaf_spec = do
  ensure (eqb_ℤ leaf_spec.hash leaf.hash) unexpected_hash
  ensure (eqb_ℤ leaf_spec.prehash_key leaf.prehash_key) unexpected_prehash_key
  ensure (eqb_ℤ leaf_spec.prehash_value leaf.prehash_value) unexpected_prehash_value
  ensure (eqb_ℤ leaf_spec.length leaf.length) unexpected_length
  begins ← has_prefix leaf_spec.prefix leaf.prefix
  ensure begins incorrect_leaf_prefix

-- `(child_order.len() - 1) as i32 * child_size`
abbrev pub max_left_child_bytes : InnerSpec → ℤ
max_left_child_bytes spec =
    wrap32 (as_i32 (usize_sub (length spec.child_order) 1) *ℤ spec.child_size)

unfoldable pub ensure_inner_for : InnerOp → LeafOp → InnerSpec → Result (Unit {0})
ensure_inner_for inner leaf_spec inner_spec = do
  ensure (eqb_ℤ inner.hash inner_spec.hash) unexpected_hash
  as_leaf ← has_prefix leaf_spec.prefix inner.prefix
  ensure (not as_leaf) inner_with_leaf_prefix
  ensure (leb (as_usize inner_spec.min_prefix_length) (length inner.prefix)) inner_prefix_short
  ensure
      (leb (length inner.prefix)
        (as_usize (wrap32 (inner_spec.max_prefix_length +ℤ max_left_child_bytes inner_spec))))
      inner_prefix_long
  ensure (ltb_ℤ (pos 0) inner_spec.child_size) bad_child_size
  ensure
      (ltb_ℤ inner_spec.max_prefix_length
        (wrap32 (inner_spec.min_prefix_length +ℤ inner_spec.child_size)))
      bad_max_prefix_length
  excess ← usize_rem (length inner.suffix) (as_usize inner_spec.child_size)
  ensure (excess == 0) malformed_suffix

abbrev pub ensure_inner_with : InnerOp → Option LeafOp → Option InnerSpec → Result (Unit {0})
ensure_inner_with inner (some leaf_spec) (some inner_spec) =
    ensure_inner_for inner leaf_spec inner_spec
ensure_inner_with inner _ _ = err specs_required

unfoldable pub ensure_inner : InnerOp → ProofSpec → Result (Unit {0})
ensure_inner inner spec = ensure_inner_with inner spec.leaf_spec spec.inner_spec

unfoldable pub ensure_depth : ProofSpec → ℕ → Result (Unit {0})
ensure_depth spec depth =
    if not (eqb_ℤ spec.min_depth (pos 0))
    then ensure (leb (as_usize spec.min_depth) depth) too_few_inner_ops
      >> ensure (leb depth (as_usize spec.max_depth)) too_many_inner_ops
    else ok tt

module _ ⦃prost : Prost⦄ where
  -- The loop over the path; `idx` counts from 0.
  unfoldable pub ensure_steps : ProofSpec → List InnerOp → ℕ → Result (Unit {0})
  ensure_steps spec [] idx = ok tt
  ensure_steps spec (step ∷ path) idx =
      let rest = ensure_steps spec path (suc idx) in
      do
        ensure_inner_prefix step.prefix spec (pos (suc idx)) step.hash
        ensure_inner step spec
        rest

  abbrev pub check_with :
      ExistenceProof → ProofSpec → Option LeafOp → Option LeafOp → Result (Unit {0})
  check_with proof spec (some leaf) (some leaf_spec) = do
    ensure_leaf_prefix leaf.prefix spec
    ensure_leaf leaf leaf_spec
    ensure_depth spec (length proof.path)
    ensure_steps spec proof.path 0
  check_with proof spec _ _ = err leaf_or_spec_missing

  unfoldable pub check_existence_spec : ExistenceProof → ProofSpec → Result (Unit {0})
  check_existence_spec proof spec = check_with proof spec proof.leaf spec.leaf_spec
