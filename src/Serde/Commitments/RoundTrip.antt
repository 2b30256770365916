-- ===== src/Serde/Commitments/RoundTrip.antt =====
-- `CommitmentProof` of rust/src/cosmos.ics23.v1.serde.rs, written and read.
use ics.Prelude.{◌≡◌, refl, ap, Option, none, some, [], ◌∷◌}
use ics.Proto.Prost.{Prost, ProstLaws}
use ics.Serde.Fields.{Pbjson, PbjsonLaws}
use ics.Serde.Messages.Laws.{Returns}
use ics.Serde.Messages.Carries.{
  CarriesAll, CarriesAll-reads, done, ◌▸◌, carry_message, carry_nothing,
}
use mathlib.Core.Option
use ics.Proto.Types.{CommitmentOneof, CommitmentProof}
use ics.Serde.Proofs.{existence_message, non_existence_message}
use ics.Serde.Proofs.RoundTrip.{
  IsExistence, IsNonExistence, existence-Returns, non_existence-Returns,
}
use ics.Serde.Batches.{batch_proof_message}
use ics.Serde.Batches.RoundTrip.{IsBatch, batch_proof-Returns}
use ics.Serde.CompressedBatches.{compressed_batch_message}
use ics.Serde.CompressedBatches.RoundTrip.{IsCompressedBatch, compressed_batch-Returns}
use ics.Serde.Commitments.{
  commitment_proof_field_of, commitment_proof_oneof, serialize_commitment_proof,
  commitment_proof_part, commitment_proof_of, deserialize_commitment_proof,
  commitment_proof_message, in_exist, in_nonexist, in_batch, in_compressed,
}
use ics.Serde.Enums.{and_then}
use ics.Serde.Messages.Laws.{back-and_then}

-- A proof of any kind that can be written.
abbrev pub IsCommitment : Option CommitmentOneof → Type 0
IsCommitment none = Unit
IsCommitment (some (CommitmentOneof.exist proof)) = IsExistence proof
IsCommitment (some (CommitmentOneof.nonexist proof)) = IsNonExistence proof
IsCommitment (some (CommitmentOneof.batch batch)) = IsBatch batch
IsCommitment (some (CommitmentOneof.compressed batch)) = IsCompressedBatch batch

module _ ⦃prost : Prost⦄ ⦃pbjson : Pbjson⦄ (laws : ProstLaws prost)
    (base64 : PbjsonLaws pbjson) where
  commitment_proof-carried :
      (proof : Option CommitmentOneof)
      → IsCommitment proof
      → CarriesAll commitment_proof_field_of commitment_proof_part
          (commitment_proof_oneof proof ∷ [])
          none
          proof
  unfolding commitment_proof_field_of commitment_proof_part
  commitment_proof-carried none h = carry_nothing none refl ▸ done
  commitment_proof-carried (some (CommitmentOneof.exist v)) h =
      carry_message "exist" in_exist refl existence_message
        (λ x. Option.map CommitmentOneof.exist x) (some v) (λ value. refl)
        (existence-Returns laws base64 v h)
      ▸ done
  commitment_proof-carried (some (CommitmentOneof.nonexist v)) h =
      carry_message "nonexist" in_nonexist refl non_existence_message
        (λ x. Option.map CommitmentOneof.nonexist x) (some v) (λ value. refl)
        (non_existence-Returns laws base64 v h)
      ▸ done
  commitment_proof-carried (some (CommitmentOneof.batch v)) h =
      carry_message "batch" in_batch refl batch_proof_message
        (λ x. Option.map CommitmentOneof.batch x) (some v) (λ value. refl)
        (batch_proof-Returns laws base64 v h)
      ▸ done
  commitment_proof-carried (some (CommitmentOneof.compressed v)) h =
      carry_message "compressed" in_compressed refl compressed_batch_message
        (λ x. Option.map CommitmentOneof.compressed x) (some v) (λ value. refl)
        (compressed_batch-Returns laws base64 v h)
      ▸ done

  pub commitment_proof-Returns :
      (commitment : CommitmentProof)
      → IsCommitment commitment.proof
      → Returns commitment_proof_message commitment
  unfolding serialize_commitment_proof deserialize_commitment_proof
  commitment_proof-Returns commitment h =
      let (written, w, read) = CarriesAll-reads (commitment_proof-carried commitment.proof h) in
      (written, w, ap (Option.map commitment_proof_of) read)

  -- A serialized `CommitmentProof` of any kind whose indices, if it is compressed, are i32 values and
  -- whose operations are variants is read back as it was.
  pub deserialize-serialize_commitment_proof :
      (commitment : CommitmentProof)
      → IsCommitment commitment.proof
      → and_then (serialize_commitment_proof commitment) deserialize_commitment_proof
        ≡ some commitment
  deserialize-serialize_commitment_proof commitment h =
      back-and_then (serialize_commitment_proof commitment) deserialize_commitment_proof
        (commitment_proof-Returns commitment h)
