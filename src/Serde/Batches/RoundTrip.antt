-- ===== src/Serde/Batches/RoundTrip.antt =====
-- `BatchEntry` and `BatchProof` of rust/src/cosmos.ics23.v1.serde.rs, written and read.
use ics.Prelude.{All-imp, refl, ap, ◌∙◌, Option, none, some, List, [], ◌∷◌, All}
use ics.Proto.Prost.{Prost, ProstLaws}
use ics.Serde.Fields.{Pbjson, PbjsonLaws}
use ics.Serde.Messages.Laws.{Returns, kept_list, get_or-kept_list}
use ics.Serde.Messages.Carries.{
  CarriesAll, CarriesAll-reads, done, ◌▸◌, carry_message, carry_messages, carry_nothing,
}
use mathlib.Core.Option
use ics.Proto.Types.{BatchOneof, BatchEntry, BatchProof}
use ics.Serde.Proofs.{existence_message, non_existence_message}
use ics.Serde.Proofs.RoundTrip.{
  IsExistence, IsNonExistence, existence-Returns, non_existence-Returns,
}
use ics.Serde.Batches.{
  batch_entry_field_of, batch_entry_oneof, serialize_batch_entry, batch_entry_part, batch_entry_of,
  deserialize_batch_entry, batch_entry_message, batch_proof_field_of, batch_proof_fields,
  serialize_batch_proof, batch_proof_part, no_batch_proof_parts, batch_proof_of,
  deserialize_batch_proof, batch_proof_message, BatchProofParts, in_exist, in_nonexist, in_entries,
}

-- An entry whose proof, if it has one, can be written.
abbrev pub IsEntry : Option BatchOneof → Type 0
IsEntry none = Unit
IsEntry (some (BatchOneof.exist proof)) = IsExistence proof
IsEntry (some (BatchOneof.nonexist proof)) = IsNonExistence proof

pub record IsBatch (batch : BatchProof) : Type 0 where
  pub entries : All (λ entry. IsEntry entry.proof) batch.entries

module _ ⦃prost : Prost⦄ ⦃pbjson : Pbjson⦄ (laws : ProstLaws prost)
    (base64 : PbjsonLaws pbjson) where
  batch_entry-carried :
      (proof : Option BatchOneof)
      → IsEntry proof
      → CarriesAll batch_entry_field_of batch_entry_part (batch_entry_oneof proof ∷ []) none proof
  unfolding batch_entry_field_of batch_entry_part
  batch_entry-carried none h = carry_nothing none refl ▸ done
  batch_entry-carried (some (BatchOneof.exist v)) h =
      carry_message "exist" in_exist refl existence_message (λ x. Option.map BatchOneof.exist x)
        (some v) (λ value. refl) (existence-Returns laws base64 v h)
      ▸ done
  batch_entry-carried (some (BatchOneof.nonexist v)) h =
      carry_message "nonexist" in_nonexist refl non_existence_message
        (λ x. Option.map BatchOneof.nonexist x) (some v) (λ value. refl)
        (non_existence-Returns laws base64 v h)
      ▸ done

  pub batch_entry-Returns :
      (entry : BatchEntry) → IsEntry entry.proof → Returns batch_entry_message entry
  unfolding serialize_batch_entry deserialize_batch_entry
  batch_entry-Returns entry h =
      let (written, w, read) = CarriesAll-reads (batch_entry-carried entry.proof h) in
      (written, w, ap (Option.map batch_entry_of) read)

  abbrev batch_proof_known : Option (List BatchEntry) → BatchProofParts
  batch_proof_known entries' = record { entries = entries' }

  batch_proof-carried :
      (batch : BatchProof)
      → IsBatch batch
      → CarriesAll batch_proof_field_of batch_proof_part
          (batch_proof_fields batch)
          no_batch_proof_parts
          (batch_proof_known (kept_list batch.entries))
  unfolding batch_proof_field_of batch_proof_part
  batch_proof-carried batch h =
      carry_messages "entries" in_entries refl batch_entry_message (λ x. batch_proof_known x)
        batch.entries (λ v. refl) (All-imp _ batch_entry-Returns batch.entries h.entries)
      ▸ done

  pub batch_proof-Returns : (batch : BatchProof) → IsBatch batch → Returns batch_proof_message batch
  unfolding serialize_batch_proof deserialize_batch_proof
  batch_proof-Returns batch h =
      let (written, w, read) = CarriesAll-reads (batch_proof-carried batch h) in
      (
        written,
        w,
        ap (Option.map batch_proof_of) read ∙ λ i.
            some (record { entries = get_or-kept_list batch.entries i }),
      )
