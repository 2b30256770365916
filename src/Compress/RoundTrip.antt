-- ===== src/Compress/RoundTrip.antt =====
-- `compress` and `decompress` of rust/src/compress.rs together.
use ics.Prelude.{ℕ, ◌≤◌, ◌≡◌, refl, false, Option, none, some, length, get_elem?, arith}
use ics.Prelude.Result.{ok, ◌>>=◌}
use ics.Proto.Types.{InnerOp, CommitmentProof, CommitmentOneof, BatchProof, CompressedBatchProof}
use ics.Proto.Prost.{Prost, ProstLaws}
use ics.Compress.{no_tables, compress_batch, compress, decompress_batch, decompress, is_compressed}
use ics.Compress.Table.{max_index, Extends-refl, no_tables-IsIndexed}
use ics.Compress.Parts.{inner_count, kind_count, compress_entries-Compressed}

module _ ⦃prost : Prost⦄ where
  module _ (laws : ProstLaws prost) where
    compress_batch-restores :
        (batch : BatchProof)
        → inner_count batch.entries ≤ max_index
        → (compress_batch batch >>= decompress)
          ≡ ok (record { proof = some (CommitmentOneof.batch batch) })
    unfolding compress_batch decompress decompress_batch
    compress_batch-restores batch room =
        let c =
          compress_entries-Compressed laws batch.entries no_tables no_tables-IsIndexed
            (omega arith) in
        rw (c.restores _ (Extends-refl _))

    decompress-compress_oneof :
        (o : Option CommitmentOneof)
        → is_compressed (record { proof = o }) ≡ false
        → kind_count o ≤ max_index
        → (compress (record { proof = o }) >>= decompress) ≡ ok (record { proof = o })
    unfolding compress is_compressed
    decompress-compress_oneof none c room = unfold decompress in refl
    decompress-compress_oneof (some (CommitmentOneof.exist ex)) c room = unfold decompress in refl
    decompress-compress_oneof (some (CommitmentOneof.nonexist non)) c room =
        unfold decompress in refl
    decompress-compress_oneof (some (CommitmentOneof.batch batch)) c room =
        compress_batch-restores batch room
    decompress-compress_oneof (some (CommitmentOneof.compressed p)) c room = cc

    -- A proof that is not compressed comes back unchanged from `compress` and then `decompress`, if
    -- the inner nodes of its batch, counted with repetitions, are at most 2 ^ 31.
    pub decompress-compress :
        (proof : CommitmentProof)
        → is_compressed proof ≡ false
        → kind_count proof.proof ≤ max_index
        → (compress proof >>= decompress) ≡ ok proof
    decompress-compress proof c room = decompress-compress_oneof proof.proof c room

    -- If the paths of a batch have at most 2 ^ 31 inner nodes in all, then the batch is compressed, and
    -- the table of the result holds no inner node twice, and no more nodes than the batch.
    pub compress_batch_shares :
        (batch : BatchProof)
        → inner_count batch.entries ≤ max_index
        → (c : CompressedBatchProof) × (compress_batch batch
            ≡ ok (record { proof = some (CommitmentOneof.compressed c) }))
          × (length c.lookup_inners ≤ inner_count batch.entries)
          × ((i j : ℕ) (op : InnerOp)
              → get_elem? c.lookup_inners i ≡ some op
              → get_elem? c.lookup_inners j ≡ some op
              → i ≡ j)
    unfolding compress_batch
    compress_batch_shares batch room =
        let c =
          compress_entries-Compressed laws batch.entries no_tables no_tables-IsIndexed
            (omega arith) in
        (
          _,
          refl,
          omega (arith, c.grows),
          λ i j op p q. ground (arith, c.indexed.complete i op p, c.indexed.complete j op q),
        )
