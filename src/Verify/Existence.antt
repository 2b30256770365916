-- ===== src/Verify/Existence.antt =====
-- The root that an existence proof leads to, and `verify_existence`, of rust/src/verify.rs.
pub mod Laws
pub mod Safe
pub mod Binding
pub mod Position
pub mod Prefix
use ics.Prelude.{
  Bool, true, false, not, ◌&&◌, Option, none, some, List, [], ◌∷◌, length, is_empty, ltb,
  if◌then◌else◌,
}
use ics.Prelude.Bytes.{Bytes, bytes_eq}
use ics.Prelude.Int.{ℤ, pos, leb_ℤ, as_usize}
use ics.Prelude.Result.{
  Result, ok, err, ◌>>=◌, ◌>>◌, ensure, key_not_set, value_not_set, child_size_exceeded,
  leaf_not_set, key_mismatch, value_mismatch, root_mismatch,
}
use ics.Proto.Types.{LeafOp, InnerOp, InnerSpec, ProofSpec, ExistenceProof}
use ics.Proto.Prost.{Prost}
use ics.Host.{HostFunctionsProvider}
use ics.Ops.{apply_leaf, apply_inner}
use ics.Verify.Conformance.{check_existence_spec}

-- `spec.and_then(|spec| spec.inner_spec.as_ref())`
abbrev pub inner_spec_of : Option ProofSpec → Option InnerSpec
inner_spec_of none = none
inner_spec_of (some spec) = spec.inner_spec

unfoldable pub check_child_size : Option InnerSpec → Bytes → Result (Unit {0})
check_child_size none hash = ok tt
check_child_size (some inner_spec) hash =
    if ltb (as_usize inner_spec.child_size) (length hash) && leb_ℤ (pos 32) inner_spec.child_size
    then err child_size_exceeded
    else ok tt

module _ ⦃prost : Prost⦄ ⦃host : HostFunctionsProvider⦄ where
  -- The loop over the path, from the hash of the leaf up.
  unfoldable pub apply_path : Option InnerSpec → List InnerOp → Bytes → Result Bytes
  apply_path inner_spec [] hash = ok hash
  apply_path inner_spec (step ∷ path) hash = do
    hash' ← apply_inner step hash
    check_child_size inner_spec hash'
    apply_path inner_spec path hash'

  abbrev root_from_leaf : ExistenceProof → Option ProofSpec → Option LeafOp → Result Bytes
  root_from_leaf proof spec none = err leaf_not_set
  root_from_leaf proof spec (some leaf_node) =
      apply_leaf leaf_node proof.key proof.value >>= apply_path (inner_spec_of spec) proof.path

  unfoldable pub calculate_existence_root_for_spec :
      ExistenceProof → Option ProofSpec → Result Bytes
  calculate_existence_root_for_spec proof spec = do
    ensure (not (is_empty proof.key)) key_not_set
    ensure (not (is_empty proof.value)) value_not_set
    root_from_leaf proof spec proof.leaf

  unfoldable pub calculate_existence_root : ExistenceProof → Result Bytes
  unfolding calculate_existence_root_for_spec
  calculate_existence_root proof = calculate_existence_root_for_spec proof none

  unfoldable pub verify_existence :
      ExistenceProof → ProofSpec → Bytes → Bytes → Bytes → Result (Unit {0})
  verify_existence proof spec root key value = do
    check_existence_spec proof spec
    ensure (bytes_eq proof.key key) key_mismatch
    ensure (bytes_eq proof.value value) value_mismatch
    calc ← calculate_existence_root_for_spec proof (some spec)
    ensure (bytes_eq calc root) root_mismatch
