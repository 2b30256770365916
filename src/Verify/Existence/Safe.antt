-- ===== src/Verify/Existence/Safe.antt =====
-- `verify_existence` of rust/src/verify.rs and panics: a rule for each function that it calls.
use ics.Prelude.{
  ℕ, suc, Bool, true, false, Option, none, some, List, [], ◌∷◌, length, if◌then◌else◌, ◌≢◌, ◌<◌,
  inl, inr, arith, ltb→lt, Bool-cases, ◌≡◌, sym, subst,
}
use ics.Prelude.Bytes.{Bytes}
use ics.Prelude.Int.{ℤ, pos, negsuc, IsI32, as_usize, ltb_ℤ}
use ics.Prelude.Result.{
  Result, panic, IsSafe, returns, fails, ◌then◌, ensure-IsSafe, ok_or-IsSafe, IsSafe-ne-panic,
}
use ics.Proto.Enums.{HashOp, LengthOp, no_prefix, var_rlp, require_32_bytes, require_64_bytes}
use ics.Proto.Types.{LeafOp, InnerOp, InnerSpec, ProofSpec, ExistenceProof}
use ics.Proto.Prost.{Prost}
use ics.Host.{HostFunctionsProvider}
use ics.Ops.{do_length, prepare_leaf_data, apply_leaf, apply_inner}
use ics.Api.Prefix.{
  ensure_leaf_prefix, ensure_inner_prefix, ensure_iavl_prefix, leaf_remaining, inner_remaining,
}
use ics.Verify.Conformance.{
  ensure_leaf, ensure_inner, ensure_inner_for, ensure_inner_with, ensure_depth, ensure_steps,
  check_existence_spec, check_with,
}
use ics.Verify.Conformance.Laws.{has_prefix-eq, usize_rem-eq}
use ics.Verify.Shape.{IsSized, mul-le}
use ics.Verify.Existence.{
  check_child_size, apply_path, calculate_existence_root_for_spec, root_from_leaf, verify_existence,
}

if-IsSafe {ℓ} :
    {A : Type ℓ} (b : Bool) {x y : Result A} → IsSafe x → IsSafe y → IsSafe (if b then x else y)
if-IsSafe true p q = p
if-IsSafe false p q = q

ruleset safe_rules = (returns, fails, ◌then◌, ensure-IsSafe, ok_or-IsSafe, if-IsSafe)

ensure_leaf-IsSafe : (leaf leaf_spec : LeafOp) → IsSafe (ensure_leaf leaf leaf_spec)
unfolding ensure_leaf
ensure_leaf-IsSafe leaf leaf_spec =
    rw (has_prefix-eq leaf_spec.prefix leaf.prefix) (search safe_rules depth 12)

-- The child size that a spec gives, if it does, is one of an i32.
abbrev pub HasI32Size : Option InnerSpec → Type 0
HasI32Size none = Unit {0}
HasI32Size (some inner_spec) = IsI32 inner_spec.child_size

-- The child size of a sized spec is.
pub HasI32Size-of_IsSized :
    {spec : Option InnerSpec} {inner_spec : InnerSpec} {n size min max : ℕ}
    → spec ≡ some inner_spec
    → IsSized inner_spec n size min max
    → HasI32Size spec
HasI32Size-of_IsSized has s = subst HasI32Size (sym has) (
    subst IsI32 (sym s.child_size)
      (omega arith, omega (arith, mul-le s 1 s.has_child, s.no_overflow)))

as_usize-positive : (a : ℤ) → IsI32 a → ltb_ℤ (pos 0) a ≡ true → 0 < as_usize a
unfolding as_usize
as_usize-positive (pos n) h k = omega (arith, h, ltb→lt 0 n (ground (arith, k)))
as_usize-positive (negsuc n) h k = ground (arith, k)

ensure_inner_for-IsSafe :
    (inner : InnerOp) (leaf_spec : LeafOp) (inner_spec : InnerSpec)
    → IsI32 inner_spec.child_size
    → IsSafe (ensure_inner_for inner leaf_spec inner_spec)
unfolding ensure_inner_for
ensure_inner_for-IsSafe inner leaf_spec inner_spec range =
    rw (has_prefix-eq leaf_spec.prefix inner.prefix)
      (elim (Bool-cases (ltb_ℤ (pos 0) inner_spec.child_size)) [
        | inl positive ↦
            let rem =
              usize_rem-eq (length inner.suffix) (as_usize inner_spec.child_size)
                (as_usize-positive inner_spec.child_size range positive) in
            rw rem (search safe_rules depth 18)
        | inr other ↦ rw other (search safe_rules depth 12)
      ])

ensure_inner_with-IsSafe :
    (inner : InnerOp) (leaf_spec : Option LeafOp) (inner_spec : Option InnerSpec)
    → HasI32Size inner_spec
    → IsSafe (ensure_inner_with inner leaf_spec inner_spec)
ensure_inner_with-IsSafe inner (some leaf_spec) (some inner_spec) range =
    ensure_inner_for-IsSafe inner leaf_spec inner_spec range
ensure_inner_with-IsSafe inner none inner_spec range = fails
ensure_inner_with-IsSafe inner (some leaf_spec) none range = fails

ensure_inner-IsSafe :
    (inner : InnerOp) (spec : ProofSpec)
    → HasI32Size spec.inner_spec
    → IsSafe (ensure_inner inner spec)
unfolding ensure_inner
ensure_inner-IsSafe inner spec = ensure_inner_with-IsSafe inner spec.leaf_spec spec.inner_spec

ensure_depth-IsSafe : (spec : ProofSpec) (depth : ℕ) → IsSafe (ensure_depth spec depth)
unfolding ensure_depth
ensure_depth-IsSafe spec depth = search safe_rules depth 8

check_child_size-IsSafe :
    (spec : Option InnerSpec) (hash : Bytes) → IsSafe (check_child_size spec hash)
unfolding check_child_size
check_child_size-IsSafe none hash = returns
check_child_size-IsSafe (some spec) hash = search safe_rules

leaf_remaining-IsSafe : (remaining : Option ℕ) → IsSafe (leaf_remaining remaining)
leaf_remaining-IsSafe none = returns
leaf_remaining-IsSafe (some n) = search safe_rules

inner_remaining-IsSafe :
    (hash_op : ℤ) (remaining : Option ℕ) → IsSafe (inner_remaining hash_op remaining)
inner_remaining-IsSafe hash_op none = returns
inner_remaining-IsSafe hash_op (some n) = search safe_rules depth 8

module _ ⦃prost : Prost⦄ where
  ensure_iavl_prefix-IsSafe :
      (prefix : Bytes) (min_height : ℤ) → IsSafe (ensure_iavl_prefix prefix min_height)
  unfolding ensure_iavl_prefix
  ensure_iavl_prefix-IsSafe prefix min_height = search safe_rules depth 16

  ensure_leaf_prefix-IsSafe :
      (prefix : Bytes) (spec : ProofSpec) → IsSafe (ensure_leaf_prefix prefix spec)
  unfolding ensure_leaf_prefix
  ensure_leaf_prefix-IsSafe prefix spec =
      search (safe_rules, ensure_iavl_prefix-IsSafe, leaf_remaining-IsSafe) depth 8

  ensure_inner_prefix-IsSafe :
      (prefix : Bytes) (spec : ProofSpec) (height hash_op : ℤ)
      → IsSafe (ensure_inner_prefix prefix spec height hash_op)
  unfolding ensure_inner_prefix
  ensure_inner_prefix-IsSafe prefix spec height hash_op =
      search (safe_rules, ensure_iavl_prefix-IsSafe, inner_remaining-IsSafe) depth 8

  ensure_steps-IsSafe :
      (spec : ProofSpec) (path : List InnerOp) (idx : ℕ)
      → HasI32Size spec.inner_spec
      → IsSafe (ensure_steps spec path idx)
  unfolding ensure_steps
  ensure_steps-IsSafe spec [] idx range = returns
  ensure_steps-IsSafe spec (step ∷ path) idx range =
      ensure_inner_prefix-IsSafe step.prefix spec (pos (suc idx)) step.hash then λ _.
      ensure_inner-IsSafe step spec range then λ _. ensure_steps-IsSafe spec path (suc idx) range

  check_with-IsSafe :
      (proof : ExistenceProof) (spec : ProofSpec) (leaf leaf_spec : Option LeafOp)
      → HasI32Size spec.inner_spec
      → IsSafe (check_with proof spec leaf leaf_spec)
  check_with-IsSafe proof spec (some leaf) (some leaf_spec) range =
      ensure_leaf_prefix-IsSafe leaf.prefix spec then λ _.
      ensure_leaf-IsSafe leaf leaf_spec then λ _.
      ensure_depth-IsSafe spec (length proof.path) then λ _.
      ensure_steps-IsSafe spec proof.path 0 range
  check_with-IsSafe proof spec none leaf_spec range = fails
  check_with-IsSafe proof spec (some leaf) none range = fails

  do_length-IsSafe : (op : LengthOp) (message : Bytes) → IsSafe (do_length op message)
  unfolding do_length
  do_length-IsSafe no_prefix message = returns
  do_length-IsSafe require_32_bytes message = search safe_rules depth 8
  do_length-IsSafe require_64_bytes message = search safe_rules depth 8
  do_length-IsSafe var_rlp message = fails
  do_length-IsSafe _ message = returns

module _ ⦃prost : Prost⦄ ⦃host : HostFunctionsProvider⦄ where
  prepare_leaf_data-IsSafe :
      (prehash : HashOp) (len : LengthOp) (message : Bytes)
      → IsSafe (prepare_leaf_data prehash len message)
  unfolding prepare_leaf_data
  prepare_leaf_data-IsSafe prehash len message = search (safe_rules, do_length-IsSafe) depth 8

  apply_leaf-IsSafe : (leaf : LeafOp) (key value : Bytes) → IsSafe (apply_leaf leaf key value)
  unfolding apply_leaf
  apply_leaf-IsSafe leaf key value = search (safe_rules, prepare_leaf_data-IsSafe) depth 8

  apply_inner-IsSafe : (inner : InnerOp) (child : Bytes) → IsSafe (apply_inner inner child)
  unfolding apply_inner
  apply_inner-IsSafe inner child = search safe_rules depth 8

  apply_path-IsSafe :
      (spec : Option InnerSpec) (path : List InnerOp) (hash : Bytes)
      → IsSafe (apply_path spec path hash)
  unfolding apply_path
  apply_path-IsSafe spec [] hash = returns
  apply_path-IsSafe spec (step ∷ path) hash = apply_inner-IsSafe step hash then λ hash'.
      check_child_size-IsSafe spec hash' then λ _. apply_path-IsSafe spec path hash'

  root_from_leaf-IsSafe :
      (proof : ExistenceProof) (spec : Option ProofSpec) (leaf : Option LeafOp)
      → IsSafe (root_from_leaf proof spec leaf)
  root_from_leaf-IsSafe proof spec none = fails
  root_from_leaf-IsSafe proof spec (some leaf) =
      apply_leaf-IsSafe leaf proof.key proof.value then apply_path-IsSafe _ proof.path

  calculate_existence_root_for_spec-IsSafe :
      (proof : ExistenceProof) (spec : Option ProofSpec)
      → IsSafe (calculate_existence_root_for_spec proof spec)
  unfolding calculate_existence_root_for_spec
  calculate_existence_root_for_spec-IsSafe proof spec =
      search (safe_rules, root_from_leaf-IsSafe) depth 10

  pub verify_existence-IsSafe :
      (proof : ExistenceProof) (spec : ProofSpec) (root key value : Bytes)
      → HasI32Size spec.inner_spec
      → IsSafe (verify_existence proof spec root key value)
  unfolding verify_existence check_existence_spec
  verify_existence-IsSafe proof spec root key value range =
      search (safe_rules, check_with-IsSafe, calculate_existence_root_for_spec-IsSafe) depth 12

  -- Under a spec whose child size is in the range of an i32, as every one in Rust is, `verify_existence`
  -- returns, with success or an error, on every proof, root, key and value: no prefix is sliced out of
  -- bounds and no length is divided by 0.
  pub verify_existence-ne-panic :
      (proof : ExistenceProof) (spec : ProofSpec) (root key value : Bytes)
      → HasI32Size spec.inner_spec
      → verify_existence proof spec root key value ≢ panic
  verify_existence-ne-panic proof spec root key value range =
      IsSafe-ne-panic (verify_existence-IsSafe proof spec root key value range)
