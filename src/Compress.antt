-- ===== src/Compress.antt =====
-- rust/src/compress.rs: a batch proof shares its inner nodes in one table. The vector and the map that
-- the closures of `compress_batch` mutate are the state that is passed along; the map is an
-- association list.
pub mod Table
pub mod Parts
pub mod RoundTrip
use ics.Prelude.{
  ℕ, suc, Bool, true, false, Option, none, some, List, [], ◌∷◌, ◌++◌, map, length, get_elem?,
  if◌then◌else◌,
}
use ics.Prelude.Bytes.{Bytes, bytes_eq}
use ics.Prelude.Int.{ℤ, as_i32, as_usize}
use ics.Prelude.Result.{Result, ok, ◌>>=◌}
use ics.Proto.Types.{
  InnerOp, ExistenceProof, NonExistenceProof, CommitmentProof, CommitmentOneof, BatchProof,
  BatchEntry, BatchOneof, CompressedExistenceProof, CompressedNonExistenceProof, CompressedOneof,
  CompressedBatchEntry, CompressedBatchProof,
}
use ics.Proto.Prost.{Prost}
use mathlib.Core.Option

pub record Tables : Type 0 where
  pub lookup : List InnerOp
  pub registry : List (Bytes × ℤ)

abbrev pub no_tables : Tables
no_tables = record { lookup = []; registry = [] }

unfoldable pub registry_get : Bytes → List (Bytes × ℤ) → Option ℤ
registry_get buf [] = none
registry_get buf ((key, idx) ∷ entries) =
    if bytes_eq key buf then some idx else registry_get buf entries

abbrev is_compressed_oneof : Option CommitmentOneof → Bool
is_compressed_oneof (some (CommitmentOneof.compressed _)) = true
is_compressed_oneof _ = false

unfoldable pub is_compressed : CommitmentProof → Bool
is_compressed proof = is_compressed_oneof proof.proof

module _ ⦃prost : Prost⦄ where
  abbrev pub insert_with : InnerOp → Tables → Option ℤ → ℤ × Tables
  insert_with x tables (some idx) = (idx, tables)
  insert_with x tables none =
      let idx = as_i32 (length tables.lookup) in
      (
        idx,
        record {
          lookup = tables.lookup ++ x ∷ [];
          registry = (prost.encode_to_vec x, idx) ∷ tables.registry;
        },
      )

  -- `registry.entry(buf).or_insert_with(…)`: the index of an inner node, which is new to the tables
  -- or known from its encoding.
  unfoldable pub register : InnerOp → Tables → ℤ × Tables
  unfolding registry_get
  register x tables = insert_with x tables (registry_get (prost.encode_to_vec x) tables.registry)

  unfoldable pub compress_path : List InnerOp → Tables → List ℤ × Tables
  compress_path [] tables = ([], tables)
  compress_path (x ∷ path) tables =
      let (idx, tables') = register x tables in
      let (indices, tables'') = compress_path path tables' in (idx ∷ indices, tables'')

  unfoldable pub compress_exist : ExistenceProof → Tables → CompressedExistenceProof × Tables
  compress_exist exist tables =
      let (path, tables') = compress_path exist.path tables in
      (record { key = exist.key; value = exist.value; leaf = exist.leaf; path = path }, tables')

  unfoldable pub compress_side :
      Option ExistenceProof → Tables → Option CompressedExistenceProof × Tables
  compress_side none tables = (none, tables)
  compress_side (some exist) tables =
      let (compressed, tables') = compress_exist exist tables in (some compressed, tables')

  unfoldable pub compress_nonexist :
      NonExistenceProof → Tables → CompressedNonExistenceProof × Tables
  compress_nonexist non tables =
      let (left, tables') = compress_side non.left tables in
      let (right, tables'') = compress_side non.right tables' in
      (record { key = non.key; left = left; right = right }, tables'')

  unfoldable pub compress_oneof : Option BatchOneof → Tables → Option CompressedOneof × Tables
  compress_oneof none tables = (none, tables)
  compress_oneof (some (BatchOneof.exist ex)) tables =
      let (exist, tables') = compress_exist ex tables in
      (some (CompressedOneof.exist exist), tables')
  compress_oneof (some (BatchOneof.nonexist non)) tables =
      let (nonexist, tables') = compress_nonexist non tables in
      (some (CompressedOneof.nonexist nonexist), tables')

  -- The `map` and `collect` over the entries.
  unfoldable pub compress_entries : List BatchEntry → Tables → List CompressedBatchEntry × Tables
  compress_entries [] tables = ([], tables)
  compress_entries (entry ∷ entries) tables =
      let (proof, tables') = compress_oneof entry.proof tables in
      let (centries, tables'') = compress_entries entries tables' in
      (record { proof = proof } ∷ centries, tables'')

  unfoldable pub compress_batch : BatchProof → Result CommitmentProof
  compress_batch proof =
      let (centries, tables) = compress_entries proof.entries no_tables in
      ok (record {
        proof = some (
            CommitmentOneof.compressed
              (record { entries = centries; lookup_inners = tables.lookup }));
      })

  abbrev compress_kind : CommitmentProof → Option CommitmentOneof → Result CommitmentProof
  compress_kind proof (some (CommitmentOneof.batch batch)) = compress_batch batch
  compress_kind proof _ = ok proof

  unfoldable pub compress : CommitmentProof → Result CommitmentProof
  compress proof = compress_kind proof proof.proof

-- `map(|&x| lookup.get(x as usize).cloned()).collect::<Option<Vec<_>>>()`
unfoldable pub lookup_path : List InnerOp → List ℤ → Option (List InnerOp)
lookup_path lookup [] = some []
lookup_path lookup (x ∷ indices) =
    let rest = lookup_path lookup indices in
    elim (get_elem? lookup (as_usize x)) [
      | none ↦ none
      | some step ↦ Option.map (λ path. step ∷ path) rest
    ]

-- An index out of range empties the whole path (`unwrap_or_default`).
unfoldable pub decompress_exist : CompressedExistenceProof → List InnerOp → ExistenceProof
unfolding lookup_path
decompress_exist exist lookup = record {
  key = exist.key;
  value = exist.value;
  leaf = exist.leaf;
  path = Option.get_or (lookup_path lookup exist.path) [];
}

unfoldable pub decompress_nonexist : CompressedNonExistenceProof → List InnerOp → NonExistenceProof
decompress_nonexist non lookup = record {
  key = non.key;
  left = Option.map (λ l. decompress_exist l lookup) non.left;
  right = Option.map (λ r. decompress_exist r lookup) non.right;
}

unfoldable pub decompress_oneof : List InnerOp → Option CompressedOneof → Option BatchOneof
decompress_oneof lookup none = none
decompress_oneof lookup (some (CompressedOneof.exist ex)) =
    some (BatchOneof.exist (decompress_exist ex lookup))
decompress_oneof lookup (some (CompressedOneof.nonexist non)) =
    some (BatchOneof.nonexist (decompress_nonexist non lookup))

unfoldable pub decompress_entries : List InnerOp → List CompressedBatchEntry → List BatchEntry
decompress_entries lookup [] = []
decompress_entries lookup (cent ∷ entries) =
    record { proof = decompress_oneof lookup cent.proof } ∷ decompress_entries lookup entries

unfoldable pub decompress_batch : CompressedBatchProof → Result CommitmentProof
decompress_batch proof = ok (record {
  proof = some (
      CommitmentOneof.batch
        (record { entries = decompress_entries proof.lookup_inners proof.entries }));
})

abbrev decompress_kind : CommitmentProof → Option CommitmentOneof → Result CommitmentProof
decompress_kind proof (some (CommitmentOneof.compressed compressed)) = decompress_batch compressed
decompress_kind proof _ = ok proof

unfoldable pub decompress : CommitmentProof → Result CommitmentProof
decompress proof = decompress_kind proof proof.proof
