-- ===== src/Tests/Batches.antt =====
-- Examples for the entry points and for compression.
use ics.Prelude.{ℕ, ◌≤◌, ◌≡◌, refl, Bool, true, some, [], ◌∷◌, All, length, get_elem?, arith}
use ics.Prelude.Bytes.{Bytes}
use ics.Prelude.Result.{ok, ◌>>=◌}
use ics.Proto.Types.{
  InnerOp, ExistenceProof, NonExistenceProof, CommitmentProof, CommitmentOneof,
  CompressedBatchProof,
}
use ics.Api.Specs.{tendermint_spec}
use ics.Compress.{compress, compress_batch, decompress, is_compressed}
use ics.Compress.Parts.{inner_count}
use ics.Compress.RoundTrip.{decompress-compress, compress_batch_shares}
use ics.Verify.Existence.{verify_existence}
use ics.Verify.NonExistence.{verify_non_existence}
use ics.Membership.{decompressed, verify_membership, verify_non_membership}
use ics.Membership.Selection.{OffersExist}
use ics.Membership.Exclusion.{OffersNonexist, get_nonexist_proof_iff}
use ics.Membership.Laws.{
  verify_membership_iff, verify_membership-returns, verify_non_membership_iff,
  verify_batch_membership_iff, verify_membership-compress,
}
use ics.Tests.{sample_prost, sample_host, sample_laws}
use ics.Tests.Samples.{tendermint_range, absent_4, batch_proof, sample_batch, sample_root}
use ics.Tests.Runs.{member_1, no_member_4, members_1_5, found_4}

decompress-compress_example : (compress batch_proof >>= decompress) ≡ ok batch_proof
unfolding is_compressed
decompress-compress_example = decompress-compress sample_laws batch_proof refl (omega arith)

compress_batch_shares_example :
    (c : CompressedBatchProof) × (compress_batch sample_batch
      ≡ ok (record { proof = some (CommitmentOneof.compressed c) }))
    × (length c.lookup_inners ≤ inner_count sample_batch.entries)
    × ((i j : ℕ) (op : InnerOp)
        → get_elem? c.lookup_inners i ≡ some op
        → get_elem? c.lookup_inners j ≡ some op
        → i ≡ j)
compress_batch_shares_example = compress_batch_shares sample_laws sample_batch (omega arith)

verify_membership_iff_example :
    (p : CommitmentProof) × (ex : ExistenceProof) × (decompressed batch_proof ≡ ok p)
    × OffersExist (1 ∷ []) p.proof ex
    × (verify_existence ex tendermint_spec sample_root (1 ∷ []) (1 ∷ 1 ∷ []) ≡ ok tt)
verify_membership_iff_example =
    (verify_membership_iff batch_proof tendermint_spec sample_root (1 ∷ []) (1 ∷ 1 ∷ [])).0 member_1

verify_membership-returns_example :
    (b : Bool) × (verify_membership batch_proof tendermint_spec sample_root (4 ∷ []) (4 ∷ [])
      ≡ ok b)
verify_membership-returns_example =
    verify_membership-returns batch_proof tendermint_spec sample_root (4 ∷ []) (4 ∷ [])
      tendermint_range

verify_non_membership_iff_example :
    (p : CommitmentProof) × (non : NonExistenceProof) × (decompressed batch_proof ≡ ok p)
    × OffersNonexist (4 ∷ []) tendermint_spec p.proof non
    × (verify_non_existence non tendermint_spec sample_root (4 ∷ []) ≡ ok tt)
verify_non_membership_iff_example =
    (verify_non_membership_iff batch_proof tendermint_spec sample_root (4 ∷ [])).0 no_member_4

verify_batch_membership_iff_example :
    All
      (λ (item : Bytes × Bytes).
        verify_membership batch_proof tendermint_spec sample_root item.0 item.1 ≡ ok true)
      ((1 ∷ [], 1 ∷ 1 ∷ []) ∷ (5 ∷ [], 5 ∷ 5 ∷ []) ∷ [])
verify_batch_membership_iff_example =
    (verify_batch_membership_iff batch_proof tendermint_spec sample_root
        ((1 ∷ [], 1 ∷ 1 ∷ []) ∷ (5 ∷ [], 5 ∷ 5 ∷ []) ∷ [])).0
      members_1_5

verify_membership-compress_example :
    ((compress batch_proof >>= λ c.
    verify_membership c tendermint_spec sample_root (1 ∷ []) (1 ∷ 1 ∷ []))
      ≡ verify_membership batch_proof tendermint_spec sample_root (1 ∷ []) (1 ∷ 1 ∷ []))
    × ((compress batch_proof >>= λ c. verify_non_membership c tendermint_spec sample_root (1 ∷ []))
        ≡ verify_non_membership batch_proof tendermint_spec sample_root (1 ∷ []))
unfolding is_compressed
verify_membership-compress_example =
    verify_membership-compress sample_laws batch_proof tendermint_spec sample_root (1 ∷ [])
      (1 ∷ 1 ∷ []) refl (omega arith)

get_nonexist_proof_iff_example : OffersNonexist (4 ∷ []) tendermint_spec batch_proof.proof absent_4
get_nonexist_proof_iff_example =
    (get_nonexist_proof_iff batch_proof (4 ∷ []) tendermint_spec absent_4).0 found_4
