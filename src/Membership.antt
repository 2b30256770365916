-- ===== src/Membership.antt =====
-- The entry points of rust/src/api.rs: membership and non-membership of one key or of several, from
-- a proof in any of its forms. Their `bool` is a `Result`, since a panic further down reaches them.
pub mod Selection
pub mod Exclusion
pub mod Laws
pub mod Indices
use ics.Prelude.{Bool, true, false, ◌&&◌, Option, none, some, List, [], ◌∷◌, if◌then◌else◌}
use ics.Prelude.Bytes.{Bytes, bytes_eq, bytes_lt}
use ics.Prelude.Result.{Result, ok, err, panic, ◌>>=◌}
use ics.Proto.Enums.{HashOp, no_hash}
use ics.Proto.Types.{
  LeafOp, ProofSpec, ExistenceProof, NonExistenceProof, CommitmentProof, CommitmentOneof,
  BatchProof, BatchEntry, BatchOneof,
}
use ics.Proto.Prost.{Prost}
use ics.Host.{HostFunctionsProvider}
use ics.Ops.{do_hash}
use ics.Compress.{is_compressed, decompress}
use ics.Verify.Existence.{verify_existence}
use ics.Verify.NonExistence.{verify_non_existence}

-- `valid.is_ok()`
abbrev pub succeeds : Result (Unit {0}) → Result Bool
succeeds (ok _) = ok true
succeeds (err e) = ok false
succeeds panic = panic

-- What an entry point goes on with: `false` if the proof cannot be decompressed.
abbrev pub or_false {ℓ} : {A : Type ℓ} → Result A → (A → Result Bool) → Result Bool
or_false (ok a) k = k a
or_false (err e) k = ok false
or_false panic k = panic

-- `iter().all(…)`, which stops at the first item that fails.
unfoldable pub all {ℓ} : {A : Type ℓ} → (A → Result Bool) → List A → Result Bool
all test [] = ok true
all test (x ∷ xs) = let rest = all test xs in do b ← test x; if b then rest else ok false

unfoldable pub decompressed : CommitmentProof → Result CommitmentProof
decompressed proof = if is_compressed proof then decompress proof else ok proof

-- One round of the loop of `get_exist_proof` over a batch, with what the further rounds return.
abbrev pub exist_or : Bytes → Option BatchOneof → Option ExistenceProof → Option ExistenceProof
exist_or key (some (BatchOneof.exist ex)) rest = if bytes_eq ex.key key then some ex else rest
exist_or key _ rest = rest

unfoldable pub find_exist : Bytes → List BatchEntry → Option ExistenceProof
find_exist key [] = none
find_exist key (entry ∷ entries) = exist_or key entry.proof (find_exist key entries)

abbrev exist_of : Bytes → Option CommitmentOneof → Option ExistenceProof
exist_of key (some (CommitmentOneof.exist ex)) = some ex
exist_of key (some (CommitmentOneof.batch batch)) = find_exist key batch.entries
exist_of key _ = none

unfoldable pub get_exist_proof : CommitmentProof → Bytes → Option ExistenceProof
unfolding find_exist
get_exist_proof proof key = exist_of key proof.proof

module _ ⦃prost : Prost⦄ ⦃host : HostFunctionsProvider⦄ where
  -- `leaf_spec.map(|leaf_spec| leaf_spec.prehash_key()).unwrap_or_default()`
  abbrev prehash_or_default : Option LeafOp → HashOp
  prehash_or_default none = no_hash
  prehash_or_default (some leaf_spec) = prost.hash_op leaf_spec.prehash_key

  -- The closure of `get_nonexist_proof`.
  unfoldable pub lookup_key : ProofSpec → Bytes → Bytes
  lookup_key spec key =
      if spec.prehash_key_before_comparison
      then do_hash (prehash_or_default spec.leaf_spec) key
      else key

  abbrev pub below : Option ExistenceProof → ProofSpec → Bytes → Bool
  below none spec key = true
  below (some x) spec key = bytes_lt (lookup_key spec x.key) (lookup_key spec key)

  abbrev pub above : Option ExistenceProof → ProofSpec → Bytes → Bool
  above none spec key = true
  above (some x) spec key = bytes_lt (lookup_key spec key) (lookup_key spec x.key)

  -- The key lies between the proofs' keys.
  unfoldable pub encloses : NonExistenceProof → ProofSpec → Bytes → Bool
  unfolding lookup_key
  encloses non spec key = below non.left spec key && above non.right spec key

  -- One round of the loop of `get_nonexist_proof`.
  abbrev pub nonexist_or :
      Bytes → ProofSpec → Option BatchOneof → Option NonExistenceProof → Option NonExistenceProof
  nonexist_or key spec (some (BatchOneof.nonexist non)) rest =
      if encloses non spec key then some non else rest
  nonexist_or key spec _ rest = rest

  unfoldable pub find_nonexist : Bytes → ProofSpec → List BatchEntry → Option NonExistenceProof
  find_nonexist key spec [] = none
  find_nonexist key spec (entry ∷ entries) =
      nonexist_or key spec entry.proof (find_nonexist key spec entries)

  abbrev nonexist_of : Bytes → ProofSpec → Option CommitmentOneof → Option NonExistenceProof
  nonexist_of key spec (some (CommitmentOneof.nonexist non)) =
      if encloses non spec key then some non else none
  nonexist_of key spec (some (CommitmentOneof.batch batch)) = find_nonexist key spec batch.entries
  nonexist_of key spec _ = none

  unfoldable pub get_nonexist_proof : CommitmentProof → Bytes → ProofSpec → Option NonExistenceProof
  unfolding find_nonexist
  get_nonexist_proof proof key spec = nonexist_of key spec proof.proof

  abbrev verify_found : ProofSpec → Bytes → Bytes → Bytes → Option ExistenceProof → Result Bool
  verify_found spec root key value none = ok false
  verify_found spec root key value (some ex) = succeeds (verify_existence ex spec root key value)

  unfoldable pub verify_membership :
      CommitmentProof → ProofSpec → Bytes → Bytes → Bytes → Result Bool
  unfolding decompressed
  verify_membership proof spec root key value =
      or_false (decompressed proof) λ p. verify_found spec root key value (get_exist_proof p key)

  abbrev verify_not_found : ProofSpec → Bytes → Bytes → Option NonExistenceProof → Result Bool
  verify_not_found spec root key none = ok false
  verify_not_found spec root key (some non) = succeeds (verify_non_existence non spec root key)

  unfoldable pub verify_non_membership : CommitmentProof → ProofSpec → Bytes → Bytes → Result Bool
  unfolding decompressed
  verify_non_membership proof spec root key =
      or_false (decompressed proof)
        λ p. verify_not_found spec root key (get_nonexist_proof p key spec)

  -- The map of items is the list of its pairs in the order of its keys.
  unfoldable pub verify_batch_membership :
      CommitmentProof → ProofSpec → Bytes → List (Bytes × Bytes) → Result Bool
  unfolding decompressed all
  verify_batch_membership proof spec root items =
      or_false (decompressed proof)
        λ p. all (λ item. verify_membership p spec root item.0 item.1) items

  unfoldable pub verify_batch_non_membership :
      CommitmentProof → ProofSpec → Bytes → List Bytes → Result Bool
  unfolding decompressed all
  verify_batch_non_membership proof spec root keys =
      or_false (decompressed proof) λ p. all (λ key. verify_non_membership p spec root key) keys
