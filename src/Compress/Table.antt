-- ===== src/Compress/Table.antt =====
-- The table that `compress_batch` of rust/src/compress.rs builds: its invariant, and what one step does
-- to it.
use ics.Prelude.{
  ℕ, zero, suc, ◌+◌, ◌^◌, ◌≤◌, ◌<◌, ◌≡◌, refl, sym, ap, ◌∙◌, ◌⊎◌, inl, inr, none, some, List, [],
  ◌∷◌, ◌++◌, length, length-append, get_elem?, get_elem?-append_left, get_elem?-append_here, arith,
  Bool-cases, Option-cases,
}
use ics.Prelude.Bytes.{Bytes, bytes_eq, bytes_eq_iff}
use ics.Prelude.Int.{ℤ, pos, as_i32, as_usize, wrap32-eq_of_IsI32, as_usize-pos}
use ics.Proto.Types.{InnerOp}
use ics.Proto.Prost.{Prost, ProstLaws}
use ics.Compress.{Tables, no_tables, registry_get, register, insert_with}
use mathlib.Core.List.{append-nil, append_assoc}

-- An i32 index holds positions below 2 ^ 31.
abbrev pub max_index : ℕ
max_index = 2 ^ 31

-- `later` begins with `earlier`.
pub record Extends (earlier later : List InnerOp) : Type 0 where
  pub added : List InnerOp
  pub appended : later ≡ earlier ++ added

pub Extends-refl : (xs : List InnerOp) → Extends xs xs
Extends-refl xs = record { added = []; appended = sym (append-nil xs) }

pub Extends-trans : {xs ys zs : List InnerOp} → Extends xs ys → Extends ys zs → Extends xs zs
Extends-trans {xs} {ys} {zs} p q = record {
  added = p.added ++ q.added;
  appended =
      q.appended
      ∙ ap (λ (t : List InnerOp). t ++ q.added) p.appended
      ∙ append_assoc xs p.added q.added;
}

pub Extends-get :
    {xs ys : List InnerOp} (i : ℕ) {op : InnerOp}
    → Extends xs ys
    → get_elem? xs i ≡ some op
    → get_elem? ys i ≡ some op
Extends-get {xs} {ys} i p e = rw p.appended (get_elem?-append_left xs p.added i e)

as_i32-index : (i : ℕ) → i < max_index → as_i32 i ≡ pos i
as_i32-index i h = wrap32-eq_of_IsI32 (pos i) (omega arith)

pub as_usize-index : (i : ℕ) → i < max_index → as_usize (pos i) ≡ i
as_usize-index i h = as_usize-pos i (omega arith)

module _ ⦃prost : Prost⦄ where
  -- The registry holds the encodings of the looked-up nodes with their positions, and all of them.
  pub record IsIndexed (tables : Tables) : Type 0 where
    pub sound :
        (buf : Bytes) (idx : ℤ)
        → registry_get buf tables.registry ≡ some idx
        → (i : ℕ) × (op : InnerOp) × (idx ≡ pos i)
          × (i < max_index)
          × (get_elem? tables.lookup i ≡ some op)
          × (prost.encode_to_vec op ≡ buf)
    pub complete :
        (i : ℕ) (op : InnerOp)
        → get_elem? tables.lookup i ≡ some op
        → registry_get (prost.encode_to_vec op) tables.registry ≡ some (pos i)

  pub no_tables-IsIndexed : IsIndexed no_tables
  unfolding registry_get
  no_tables-IsIndexed = record {
    sound = λ buf idx e. absurd (cc);
    complete = λ i op e. absurd (cc);
  }

  -- What one registration gives: the invariant, a longer table, and an index at which the node stands.
  pub record Registered (x : InnerOp) (tables : Tables) (result : ℤ × Tables) : Type 0 where
    pub index : ℕ
    pub is_index : result.0 ≡ pos index
    pub in_range : index < max_index
    pub found : get_elem? result.1.lookup index ≡ some x
    pub extends : Extends tables.lookup result.1.lookup
    pub grows : length result.1.lookup ≤ length tables.lookup + 1
    pub indexed : IsIndexed result.1

  get_elem?-snoc :
      (xs : List InnerOp) (x op : InnerOp) (i : ℕ)
      → get_elem? (xs ++ x ∷ []) i ≡ some op
      → (get_elem? xs i ≡ some op) ⊎ ((i ≡ length xs) × (op ≡ x))
  get_elem?-snoc [] x op zero e = inr (refl, cc)
  get_elem?-snoc [] x op (suc i) e = cc
  get_elem?-snoc (y ∷ ys) x op zero e = inl e
  get_elem?-snoc (y ∷ ys) x op (suc i) e = ground (arith, get_elem?-snoc ys x op i e)

  module _ (x : InnerOp) (tables : Tables) where
    abbrev grown : Tables
    grown = (insert_with x tables none).1

    grown-IsIndexed :
        IsIndexed tables
        → length tables.lookup < max_index
        → registry_get (prost.encode_to_vec x) tables.registry ≡ none
        → IsIndexed grown
    unfolding registry_get
    grown-IsIndexed h room fresh = record {
      sound = λ buf idx e. elim (Bool-cases (bytes_eq (prost.encode_to_vec x) buf)) [
        | inl same ↦ (
          length tables.lookup,
          x,
          ground (arith, as_i32-index (length tables.lookup) room),
          room,
          get_elem?-append_here tables.lookup x [],
          (bytes_eq_iff (prost.encode_to_vec x) buf).0 same,
        )
        | inr other ↦
            let (i, op, is, lt, at, enc) = h.sound buf idx (rw other at e) in
            (i, op, is, lt, get_elem?-append_left tables.lookup (x ∷ []) i at, enc)
      ];
      complete = λ i op e. elim (get_elem?-snoc tables.lookup x op i e) [
        | inl old ↦ elim (Bool-cases (bytes_eq (prost.encode_to_vec x) (prost.encode_to_vec op))) [
          | inl same ↦ absurd (
              ground (
                arith,
                h.complete i op old,
                (bytes_eq_iff (prost.encode_to_vec x) (prost.encode_to_vec op)).0 same,
              ))
          | inr other ↦ rw other (h.complete i op old)
        ]
        | inr (last, is_x) ↦ ground (
          arith,
          as_i32-index (length tables.lookup) room,
          bytes_eq_iff (prost.encode_to_vec x) (prost.encode_to_vec op),
        )
      ];
    }

    -- A registered node is in the table, at an index below 2 ^ 31, if the table had room.
    pub register-Registered :
        (laws : ProstLaws prost)
        → IsIndexed tables
        → length tables.lookup < max_index
        → Registered x tables (register x tables)
    unfolding register
    register-Registered laws h room =
        elim (Option-cases (registry_get (prost.encode_to_vec x) tables.registry)) [
          | inl fresh ↦ rw fresh (record {
            index = length tables.lookup;
            is_index = as_i32-index (length tables.lookup) room;
            in_range = room;
            found = get_elem?-append_here tables.lookup x [];
            extends = record { added = x ∷ []; appended = refl };
            grows = omega (arith, length-append tables.lookup (x ∷ []));
            indexed = grown-IsIndexed h room fresh;
          })
          | inr (idx, known) ↦
              let (i, op, is, lt, at, enc) = h.sound (prost.encode_to_vec x) idx known in
              rw known (record {
                index = i;
                is_index = is;
                in_range = lt;
                found = at ∙ ap some (laws.encode_to_vec-inj op x enc);
                extends = Extends-refl tables.lookup;
                grows = omega arith;
                indexed = h;
              })
        ]
