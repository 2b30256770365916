-- ===== src/Compress/Parts.antt =====
-- The parts of rust/src/compress.rs: each function that compresses a part of a batch with the one that
-- restores it, under one contract, `Compressed`.
use ics.Prelude.{
  ℕ, ◌+◌, ◌≤◌, ◌≡◌, refl, ap, ◌∙◌, Option, none, some, List, [], ◌∷◌, length, get_elem?, arith,
}
use ics.Prelude.Int.{ℤ, as_usize}
use ics.Proto.Types.{
  InnerOp, ExistenceProof, NonExistenceProof, CommitmentOneof, BatchEntry, BatchOneof,
}
use ics.Proto.Prost.{Prost, ProstLaws}
use ics.Compress.{
  Tables, register, compress_path, compress_exist, compress_side, compress_nonexist, compress_oneof,
  compress_entries, lookup_path, decompress_exist, decompress_nonexist, decompress_oneof,
  decompress_entries,
}
use ics.Compress.Table.{
  max_index, Extends, Extends-refl, Extends-trans, Extends-get, as_usize-index, IsIndexed,
  register-Registered,
}
use mathlib.Core.Option

-- The inner nodes of a proof, with repetitions.
abbrev pub side_count : Option ExistenceProof → ℕ
side_count none = 0
side_count (some exist) = length exist.path

abbrev pub oneof_count : Option BatchOneof → ℕ
oneof_count none = 0
oneof_count (some (BatchOneof.exist ex)) = length ex.path
oneof_count (some (BatchOneof.nonexist non)) = side_count non.left + side_count non.right

abbrev pub inner_count : List BatchEntry → ℕ
inner_count [] = 0
inner_count (entry ∷ entries) = oneof_count entry.proof + inner_count entries

-- Those of the batch that a commitment proof is, if it is one.
abbrev pub kind_count : Option CommitmentOneof → ℕ
kind_count (some (CommitmentOneof.batch batch)) = inner_count batch.entries
kind_count _ = 0

lookup_path-cons :
    (lookup : List InnerOp) (x : ℤ) (indices : List ℤ) {step : InnerOp} {path : List InnerOp}
    → get_elem? lookup (as_usize x) ≡ some step
    → lookup_path lookup indices ≡ some path
    → lookup_path lookup (x ∷ indices) ≡ some (step ∷ path)
unfolding lookup_path
lookup_path-cons lookup x indices e h = ground arith

module _ ⦃prost : Prost⦄ where
  -- `result` holds `a` compressed: it restores to `a` from every table that extends the one reached,
  -- which has at most `count` nodes more than before.
  pub record Compressed {A B : Type 0} (restore : List InnerOp → B → A) (a : A) (count : ℕ)
      (tables : Tables) (result : B × Tables) : Type 0 where
    pub restores :
        (later : List InnerOp) → Extends result.1.lookup later → restore later result.0 ≡ a
    pub extends : Extends tables.lookup result.1.lookup
    pub grows : length result.1.lookup ≤ length tables.lookup + count
    pub indexed : IsIndexed result.1

  module _ (laws : ProstLaws prost) where
    compress_path-Compressed :
        (path : List InnerOp) (tables : Tables)
        → IsIndexed tables
        → length tables.lookup + length path ≤ max_index
        → Compressed lookup_path (some path) (length path) tables (compress_path path tables)
    unfolding compress_path
    compress_path-Compressed [] tables h room = record {
      restores = λ later e. unfold lookup_path in refl;
      extends = Extends-refl tables.lookup;
      grows = omega arith;
      indexed = h;
    }
    compress_path-Compressed (x ∷ path) tables h room =
        let r = register-Registered x tables laws h (omega arith) in
        let tables' = (register x tables).1 in
        let c = compress_path-Compressed path tables' r.indexed (omega (arith, r.grows)) in
        record {
          restores = λ later e.
              lookup_path-cons later _ _
                (ap (λ idx. get_elem? later (as_usize idx)) r.is_index
                  ∙ ap (get_elem? later) (as_usize-index r.index r.in_range)
                  ∙ Extends-get r.index (Extends-trans c.extends e) r.found)
                (c.restores later e);
          extends = Extends-trans r.extends c.extends;
          grows = omega (arith, r.grows, c.grows);
          indexed = c.indexed;
        }

    compress_exist-Compressed :
        (exist : ExistenceProof) (tables : Tables)
        → IsIndexed tables
        → length tables.lookup + length exist.path ≤ max_index
        → Compressed
            (λ l c. decompress_exist c l)
            exist
            (length exist.path)
            tables
            (compress_exist exist tables)
    unfolding compress_exist decompress_exist
    compress_exist-Compressed exist tables h room =
        let c = compress_path-Compressed exist.path tables h room in
        record {
          restores = λ later e. rw (c.restores later e);
          extends = c.extends;
          grows = c.grows;
          indexed = c.indexed;
        }

    compress_side-Compressed :
        (side : Option ExistenceProof) (tables : Tables)
        → IsIndexed tables
        → length tables.lookup + side_count side ≤ max_index
        → Compressed
            (λ l c. Option.map (λ e. decompress_exist e l) c)
            side
            (side_count side)
            tables
            (compress_side side tables)
    unfolding compress_side
    compress_side-Compressed none tables h room = record {
      restores = λ later e. refl;
      extends = Extends-refl tables.lookup;
      grows = omega arith;
      indexed = h;
    }
    compress_side-Compressed (some exist) tables h room =
        let c = compress_exist-Compressed exist tables h room in
        record {
          restores = λ later e. ap some (c.restores later e);
          extends = c.extends;
          grows = c.grows;
          indexed = c.indexed;
        }

    compress_nonexist-Compressed :
        (non : NonExistenceProof) (tables : Tables)
        → IsIndexed tables
        → length tables.lookup + (side_count non.left + side_count non.right) ≤ max_index
        → Compressed
            (λ l c. decompress_nonexist c l)
            non
            (side_count non.left + side_count non.right)
            tables
            (compress_nonexist non tables)
    unfolding compress_nonexist decompress_nonexist
    compress_nonexist-Compressed non tables h room =
        let l = compress_side-Compressed non.left tables h (omega arith) in
        let tables' = (compress_side non.left tables).1 in
        let r = compress_side-Compressed non.right tables' l.indexed (omega (arith, l.grows)) in
        record {
          restores =
              λ later e. rw (l.restores later (Extends-trans r.extends e), r.restores later e);
          extends = Extends-trans l.extends r.extends;
          grows = omega (arith, l.grows, r.grows);
          indexed = r.indexed;
        }

    compress_oneof-Compressed :
        (proof : Option BatchOneof) (tables : Tables)
        → IsIndexed tables
        → length tables.lookup + oneof_count proof ≤ max_index
        → Compressed decompress_oneof proof (oneof_count proof) tables (compress_oneof proof tables)
    unfolding compress_oneof decompress_oneof
    compress_oneof-Compressed none tables h room = record {
      restores = λ later e. refl;
      extends = Extends-refl tables.lookup;
      grows = omega arith;
      indexed = h;
    }
    compress_oneof-Compressed (some (BatchOneof.exist ex)) tables h room =
        let c = compress_exist-Compressed ex tables h room in
        record {
          restores = λ later e. ap (λ x. some (BatchOneof.exist x)) (c.restores later e);
          extends = c.extends;
          grows = c.grows;
          indexed = c.indexed;
        }
    compress_oneof-Compressed (some (BatchOneof.nonexist non)) tables h room =
        let c = compress_nonexist-Compressed non tables h room in
        record {
          restores = λ later e. ap (λ x. some (BatchOneof.nonexist x)) (c.restores later e);
          extends = c.extends;
          grows = c.grows;
          indexed = c.indexed;
        }

    pub compress_entries-Compressed :
        (entries : List BatchEntry) (tables : Tables)
        → IsIndexed tables
        → length tables.lookup + inner_count entries ≤ max_index
        → Compressed decompress_entries entries
            (inner_count entries)
            tables
            (compress_entries entries tables)
    unfolding compress_entries decompress_entries
    compress_entries-Compressed [] tables h room = record {
      restores = λ later e. refl;
      extends = Extends-refl tables.lookup;
      grows = omega arith;
      indexed = h;
    }
    compress_entries-Compressed (entry ∷ entries) tables h room =
        let c = compress_oneof-Compressed entry.proof tables h (omega arith) in
        let tables' = (compress_oneof entry.proof tables).1 in
        let d = compress_entries-Compressed entries tables' c.indexed (omega (arith, c.grows)) in
        record {
          restores =
              λ later e. rw (c.restores later (Extends-trans d.extends e), d.restores later e);
          extends = Extends-trans c.extends d.extends;
          grows = omega (arith, c.grows, d.grows);
          indexed = d.indexed;
        }
