-- ===== src/Membership/Indices.antt =====
-- What rust/src/verify.rs accepts of a compressed proof with an index that its table does not have,
-- after rust/src/compress.rs restored it.
use ics.Prelude.{
  ◌↔◌, Option, subst, ◌≡◌, refl, sym, ap, ◌∙◌, none, some, List, [], ◌∷◌, get_elem?, arith,
}
use ics.Prelude.Bytes.{Bytes}
use ics.Prelude.Int.{ℤ, as_usize}
use ics.Prelude.Result.{ok}
use ics.Proto.Types.{
  LeafOp, InnerOp, ProofSpec, ExistenceProof, InnerSpec, CompressedExistenceProof,
}
use ics.Proto.Prost.{Prost}
use ics.Host.{HostFunctionsProvider}
use ics.Ops.{apply_leaf}
use ics.Compress.{lookup_path, decompress_exist}
use ics.Verify.Tree.Steps.{apply_leaf-filled}
use ics.Verify.Conformance.{check_existence_spec}
use ics.Verify.Existence.{verify_existence}
use ics.Verify.Existence.Laws.{Climbs, arrived, climb, Leads, verify_existence_iff}
use mathlib.Core.List.{Memᴰ}
use mathlib.Core.Option

lookup_path-missing :
    (lookup : List InnerOp) (indices : List ℤ) (x : ℤ)
    → Memᴰ x indices
    → get_elem? lookup (as_usize x) ≡ none
    → lookup_path lookup indices ≡ none
unfolding lookup_path
lookup_path-missing lookup [] x m out = elim m [ ]
lookup_path-missing lookup (y ∷ indices) x (Memᴰ.head e) out =
    let out' : get_elem? lookup (as_usize y) ≡ none =
      ap (λ i. get_elem? lookup (as_usize i)) (sym e) ∙ out in
    ground arith
lookup_path-missing lookup (y ∷ indices) x (Memᴰ.tail m) out =
    let rest = lookup_path-missing lookup indices x m out in ground arith

module _ ⦃prost : Prost⦄ ⦃host : HostFunctionsProvider⦄ where
  Climbs-nowhere :
      {path : List InnerOp} {hash root : Bytes} → path ≡ [] → Climbs path hash root → hash ≡ root
  Climbs-nowhere e arrived = refl
  Climbs-nowhere e (climb filled up) = absurd (cc)

  -- The proof without its path.
  abbrev pub pathless : CompressedExistenceProof → ExistenceProof
  pathless exist = record { key = exist.key; value = exist.value; leaf = exist.leaf; path = [] }

  pathless-Leads :
      (exist : CompressedExistenceProof) (spec : Option InnerSpec) (root : Bytes) (leaf : LeafOp)
      → exist.leaf ≡ some leaf
      → apply_leaf leaf exist.key exist.value ≡ ok root
      → Leads (pathless exist) spec root
  pathless-Leads exist spec root leaf is_leaf hashed =
      let (has_key, has_value) = apply_leaf-filled leaf exist.key exist.value root hashed in
      record {
        leaf = leaf;
        has_leaf = is_leaf;
        has_key = has_key;
        has_value = has_value;
        hash = root;
        leaf_hash = hashed;
        climbs = arrived;
        fits = tt;
      }

  pathless_iff :
      (exist : CompressedExistenceProof) (spec : ProofSpec) (root key value : Bytes)
      → (verify_existence (pathless exist) spec root key value ≡ ok tt) ↔ (
          (check_existence_spec (pathless exist) spec ≡ ok tt)
          × (exist.key ≡ key)
          × (exist.value ≡ value)
          × ((leaf : LeafOp) × (exist.leaf ≡ some leaf)
              × (apply_leaf leaf exist.key exist.value ≡ ok root)))
  pathless_iff exist spec root key value =
      let iff = verify_existence_iff (pathless exist) spec root key value in
      (
        λ e.
            let (checked, is_key, is_value, leads) = iff.0 e in
            (
              checked,
              is_key,
              is_value,
              (
                leads.leaf,
                leads.has_leaf,
                leads.leaf_hash ∙ ap ok (Climbs-nowhere refl leads.climbs),
              ),
            ),
        λ (checked, is_key, is_value, (leaf, is_leaf, hashed)). iff.1 (
          checked,
          is_key,
          is_value,
          pathless-Leads exist spec.inner_spec root leaf is_leaf hashed,
        ),
      )

  -- An index that the table does not have is no error: the proof is restored with its key, value and
  -- leaf, and with an empty path. So it is accepted exactly if, without its path, it has the form that
  -- the spec asks for, its key and value are the ones asked about, and the root is the hash of its leaf.
  pub verify_existence_bad_index :
      (exist : CompressedExistenceProof) (lookup : List InnerOp) (spec : ProofSpec)
      (root key value : Bytes) (x : ℤ)
      → Memᴰ x exist.path
      → get_elem? lookup (as_usize x) ≡ none
      → (decompress_exist exist lookup ≡ pathless exist)
        × ((verify_existence (decompress_exist exist lookup) spec root key value ≡ ok tt) ↔ (
            (check_existence_spec (pathless exist) spec ≡ ok tt)
            × (exist.key ≡ key)
            × (exist.value ≡ value)
            × ((leaf : LeafOp) × (exist.leaf ≡ some leaf)
                × (apply_leaf leaf exist.key exist.value ≡ ok root))))
  unfolding decompress_exist
  verify_existence_bad_index exist lookup spec root key value x m out =
      let restored : decompress_exist exist lookup ≡ pathless exist =
        ap
          (λ path. record {
            key = exist.key;
            value = exist.value;
            leaf = exist.leaf;
            path = Option.get_or path [];
          })
          (lookup_path-missing lookup exist.path x m out) in
      let iff = pathless_iff exist spec root key value in
      (
        restored,
        (
          λ e. iff.0 (subst (λ p. verify_existence p spec root key value ≡ ok tt) restored e),
          λ h. subst (λ p. verify_existence p spec root key value ≡ ok tt) (sym restored) (iff.1 h),
        ),
      )
