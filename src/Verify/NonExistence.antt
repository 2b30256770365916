-- ===== src/Verify/NonExistence.antt =====
-- `verify_non_existence` of rust/src/verify.rs.
pub mod Compared
pub mod Laws
use ics.Prelude.{Bool, true, false, Option, none, some}
use ics.Prelude.Bytes.{Bytes, bytes_lt}
use ics.Prelude.Int.{ℤ, pos}
use ics.Prelude.Result.{
  Result, ok, err, ◌>>=◌, ◌>>◌, ensure, left_not_before_key, right_not_after_key, no_left_nor_right,
  inner_spec_missing,
}
use ics.Proto.Types.{LeafOp, InnerSpec, ProofSpec, ExistenceProof, NonExistenceProof}
use ics.Proto.Prost.{Prost}
use ics.Host.{HostFunctionsProvider}
use ics.Ops.{do_hash}
use ics.Verify.Existence.{verify_existence}
use ics.Verify.Neighbor.{ensure_left_most, ensure_right_most, ensure_left_neighbor}

-- The prehash field of a leaf spec, 0 if there is none (`LeafOp::default`).
abbrev pub prehash_key_of : Option LeafOp → ℤ
prehash_key_of none = pos 0
prehash_key_of (some leaf) = leaf.prehash_key

unfoldable pub check_neighbors :
    InnerSpec → Option ExistenceProof → Option ExistenceProof → Result (Unit {0})
check_neighbors inner (some left) none = ensure_right_most inner left.path
check_neighbors inner none (some right) = ensure_left_most inner right.path
check_neighbors inner (some left) (some right) = ensure_left_neighbor inner left.path right.path
check_neighbors inner none none = err no_left_nor_right

abbrev pub check_neighbors_for : Option InnerSpec → NonExistenceProof → Result (Unit {0})
check_neighbors_for none proof = err inner_spec_missing
check_neighbors_for (some inner) proof = check_neighbors inner proof.left proof.right

module _ ⦃prost : Prost⦄ ⦃host : HostFunctionsProvider⦄ where
  abbrev pub comparison_key : Bool → Option LeafOp → Bytes → Bytes
  comparison_key true leaf_spec key = do_hash (prost.hash_op (prehash_key_of leaf_spec)) key
  comparison_key false leaf_spec key = key

  unfoldable pub key_for_comparison : ProofSpec → Bytes → Bytes
  key_for_comparison spec key = comparison_key spec.prehash_key_before_comparison spec.leaf_spec key

  unfoldable pub check_left : Option ExistenceProof → ProofSpec → Bytes → Bytes → Result (Unit {0})
  check_left none spec root key = ok tt
  check_left (some left) spec root key = do
    verify_existence left spec root left.key left.value
    ensure (bytes_lt (key_for_comparison spec left.key) (key_for_comparison spec key))
        left_not_before_key

  unfoldable pub check_right : Option ExistenceProof → ProofSpec → Bytes → Bytes → Result (Unit {0})
  check_right none spec root key = ok tt
  check_right (some right) spec root key = do
    verify_existence right spec root right.key right.value
    ensure (bytes_lt (key_for_comparison spec key) (key_for_comparison spec right.key))
        right_not_after_key

  unfoldable pub verify_non_existence :
      NonExistenceProof → ProofSpec → Bytes → Bytes → Result (Unit {0})
  verify_non_existence proof spec root key = do
    check_left proof.left spec root key
    check_right proof.right spec root key
    check_neighbors_for spec.inner_spec proof
