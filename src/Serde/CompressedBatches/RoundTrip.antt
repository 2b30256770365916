-- ===== src/Serde/CompressedBatches/RoundTrip.antt =====
-- `CompressedBatchEntry` and `CompressedBatchProof` of rust/src/cosmos.ics23.v1.serde.rs, written and
-- read.
use ics.Prelude.{All-imp, refl, ap, ◌∙◌, Option, none, some, List, [], ◌∷◌, All}
use ics.Proto.Prost.{Prost, ProstLaws}
use ics.Serde.Fields.{Pbjson, PbjsonLaws}
use ics.Serde.Messages.Laws.{Returns, kept_list, get_or-kept_list}
use ics.Serde.Messages.Carries.{
  CarriesAll, CarriesAll-reads, done, ◌▸◌, carry_message, carry_messages, carry_nothing,
}
use ics.Serde.InnerOps.{inner_op_message}
use mathlib.Core.Option
use ics.Proto.Types.{InnerOp, CompressedOneof, CompressedBatchEntry, CompressedBatchProof}
use ics.Serde.Compressed.{compressed_existence_message, compressed_non_existence_message}
use ics.Serde.Compressed.RoundTrip.{
  IsCompressedExistence, IsCompressedNonExistence, compressed_existence-Returns,
  compressed_non_existence-Returns,
}
use ics.Serde.Proofs.RoundTrip.{IsInnerOp, inner_op-Returns}
use ics.Serde.CompressedBatches.{
  compressed_batch_entry_field_of, compressed_batch_entry_oneof, serialize_compressed_batch_entry,
  compressed_batch_entry_part, compressed_batch_entry_of, deserialize_compressed_batch_entry,
  compressed_batch_entry_message, compressed_batch_field_of, compressed_batch_fields,
  serialize_compressed_batch, compressed_batch_part, no_compressed_batch_parts, compressed_batch_of,
  deserialize_compressed_batch, compressed_batch_message, CompressedBatchParts, in_exist,
  in_nonexist, in_entries, in_lookup_inners,
}

-- An entry whose proof, if it has one, can be written.
abbrev pub IsCompressedEntry : Option CompressedOneof → Type 0
IsCompressedEntry none = Unit
IsCompressedEntry (some (CompressedOneof.exist proof)) = IsCompressedExistence proof
IsCompressedEntry (some (CompressedOneof.nonexist proof)) = IsCompressedNonExistence proof

pub record IsCompressedBatch (batch : CompressedBatchProof) : Type 0 where
  pub entries : All (λ entry. IsCompressedEntry entry.proof) batch.entries
  pub lookup_inners : All IsInnerOp batch.lookup_inners

module _ ⦃prost : Prost⦄ ⦃pbjson : Pbjson⦄ (laws : ProstLaws prost)
    (base64 : PbjsonLaws pbjson) where
  compressed_batch_entry-carried :
      (proof : Option CompressedOneof)
      → IsCompressedEntry proof
      → CarriesAll compressed_batch_entry_field_of compressed_batch_entry_part
          (compressed_batch_entry_oneof proof ∷ [])
          none
          proof
  unfolding compressed_batch_entry_field_of compressed_batch_entry_part
  compressed_batch_entry-carried none h = carry_nothing none refl ▸ done
  compressed_batch_entry-carried (some (CompressedOneof.exist v)) h =
      carry_message "exist" in_exist refl compressed_existence_message
        (λ x. Option.map CompressedOneof.exist x) (some v) (λ value. refl)
        (compressed_existence-Returns laws base64 v h)
      ▸ done
  compressed_batch_entry-carried (some (CompressedOneof.nonexist v)) h =
      carry_message "nonexist" in_nonexist refl compressed_non_existence_message
        (λ x. Option.map CompressedOneof.nonexist x) (some v) (λ value. refl)
        (compressed_non_existence-Returns laws base64 v h)
      ▸ done

  pub compressed_batch_entry-Returns :
      (entry : CompressedBatchEntry)
      → IsCompressedEntry entry.proof
      → Returns compressed_batch_entry_message entry
  unfolding serialize_compressed_batch_entry deserialize_compressed_batch_entry
  compressed_batch_entry-Returns entry h =
      let (written, w, read) = CarriesAll-reads (compressed_batch_entry-carried entry.proof h) in
      (written, w, ap (Option.map compressed_batch_entry_of) read)

  abbrev compressed_batch_known :
      Option (List CompressedBatchEntry) → Option (List InnerOp) → CompressedBatchParts
  compressed_batch_known entries' lookup_inners' = record {
    entries = entries';
    lookup_inners = lookup_inners';
  }

  compressed_batch-carried :
      (batch : CompressedBatchProof)
      → IsCompressedBatch batch
      → CarriesAll compressed_batch_field_of compressed_batch_part
          (compressed_batch_fields batch)
          no_compressed_batch_parts
          (compressed_batch_known (kept_list batch.entries) (kept_list batch.lookup_inners))
  unfolding compressed_batch_field_of compressed_batch_part
  compressed_batch-carried batch h =
      carry_messages "entries" in_entries refl compressed_batch_entry_message
        (λ x. compressed_batch_known x none) batch.entries (λ v. refl)
        (All-imp _ compressed_batch_entry-Returns batch.entries h.entries)
      ▸ carry_messages "lookupInners" in_lookup_inners refl inner_op_message
          (λ x. compressed_batch_known (kept_list batch.entries) x) batch.lookup_inners (λ v. refl)
          (All-imp _ (inner_op-Returns laws base64) batch.lookup_inners h.lookup_inners)
      ▸ done

  pub compressed_batch-Returns :
      (batch : CompressedBatchProof)
      → IsCompressedBatch batch
      → Returns compressed_batch_message batch
  unfolding serialize_compressed_batch deserialize_compressed_batch
  compressed_batch-Returns batch h =
      let (written, w, read) = CarriesAll-reads (compressed_batch-carried batch h) in
      (
        written,
        w,
        ap (Option.map compressed_batch_of) read ∙ λ i. some (record {
          entries = get_or-kept_list batch.entries i;
          lookup_inners = get_or-kept_list batch.lookup_inners i;
        }),
      )
