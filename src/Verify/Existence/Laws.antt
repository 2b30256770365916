-- ===== src/Verify/Existence/Laws.antt =====
-- `verify_existence` of rust/src/verify.rs, against a description of how a proof leads to a root.
use ics.Prelude.{
  ◌≡◌, refl, ap, ◌∙◌, ◌↔◌, false, not, Option, none, some, List, [], ◌∷◌, is_empty, subst,
  not-eq-true, arith, ◌≤◌, length,
}
use ics.Prelude.Bytes.{Bytes, bytes_eq, bytes_eq_iff}
use ics.Prelude.Int.{pos, as_usize, ◌≤ℤ◌}
use ics.Prelude.Result.{
  ok, ensure, ensure_iff, >>=-eq-ok, >>-eq-ok, ok_inj, key_not_set, value_not_set, key_mismatch,
  value_mismatch,
}
use ics.Proto.Types.{LeafOp, InnerOp, InnerSpec, ProofSpec, ExistenceProof}
use ics.Proto.Prost.{Prost}
use ics.Host.{HostFunctionsProvider}
use ics.Ops.{do_hash, apply_leaf, apply_inner}
use ics.Ops.Binding.{inner_image, apply_inner-eq-ok}
use ics.Verify.Conformance.{check_existence_spec}
use ics.Verify.Existence.{
  inner_spec_of, check_child_size, apply_path, calculate_existence_root_for_spec,
  calculate_existence_root, verify_existence, root_from_leaf,
}

module _ ⦃prost : Prost⦄ ⦃host : HostFunctionsProvider⦄ where
  -- The hash of an inner node over a child.
  abbrev pub step_hash : InnerOp → Bytes → Bytes
  step_hash step child = do_hash (prost.hash_op step.hash) (inner_image step child)

  -- `root` is reached from `hash` by hashing up the path; no hash on the way that is taken further is
  -- empty.
  pub data Climbs : List InnerOp → Bytes → Bytes → Type 0 where
    arrived : {root : Bytes} → Climbs [] root root
    climb :
        {step : InnerOp} {path : List InnerOp} {hash root : Bytes}
        → is_empty hash ≡ false
        → Climbs path (step_hash step hash) root
        → Climbs (step ∷ path) hash root

  -- A hash is no longer than a child of the spec, if there is a spec whose children have 32 bytes or
  -- more.
  abbrev pub FitsChild : Option InnerSpec → Bytes → Type 0
  FitsChild none hash = Unit {0}
  FitsChild (some inner_spec) hash =
      pos 32 ≤ℤ inner_spec.child_size → length hash ≤ as_usize inner_spec.child_size

  check_child_size_iff :
      (spec : Option InnerSpec) (hash : Bytes)
      → (check_child_size spec hash ≡ ok tt) ↔ FitsChild spec hash
  unfolding check_child_size
  check_child_size_iff none hash = (λ e. tt, λ u. refl)
  check_child_size_iff (some inner_spec) hash = ground arith

  -- Every node above the leaf has a hash no longer than a child of the spec, where the spec's
  -- children have 32 bytes or more.
  abbrev pub HashesFit : Option InnerSpec → List InnerOp → Bytes → Type 0
  HashesFit spec [] hash = Unit {0}
  HashesFit spec (step ∷ path) hash =
      FitsChild spec (step_hash step hash) × HashesFit spec path (step_hash step hash)

  apply_inner-climb :
      (step : InnerOp) (hash : Bytes)
      → is_empty hash ≡ false
      → apply_inner step hash ≡ ok (step_hash step hash)
  unfolding apply_inner
  apply_inner-climb step hash h = rw h

  apply_path_sound :
      (spec : Option InnerSpec) (path : List InnerOp) (hash root : Bytes)
      → apply_path spec path hash ≡ ok root
      → Climbs path hash root × HashesFit spec path hash
  unfolding apply_path
  apply_path_sound spec [] hash root e =
      (subst (Climbs [] hash) (ok_inj e) (arrived {root = hash}), tt)
  apply_path_sound spec (step ∷ path) hash root e =
      let (next, applied, e₁) = >>=-eq-ok (apply_inner step hash) _ e in
      let (fits, e₂) = >>-eq-ok (check_child_size spec next) (apply_path spec path next) e₁ in
      let (filled, same) = apply_inner-eq-ok step hash next applied in
      let (up, rest) = apply_path_sound spec path next root e₂ in
      (
        climb filled (subst (λ h. Climbs path h root) same up),
        (
          subst (FitsChild spec) same ((check_child_size_iff spec next).0 fits),
          subst (λ h. HashesFit spec path h) same rest,
        ),
      )

  apply_path_complete :
      (spec : Option InnerSpec) (path : List InnerOp) (hash root : Bytes)
      → Climbs path hash root
      → HashesFit spec path hash
      → apply_path spec path hash ≡ ok root
  unfolding apply_path
  apply_path_complete spec [] hash root arrived f = refl
  apply_path_complete spec (step ∷ path) hash root (climb filled up) (fits, rest) =
      rw
        (
          apply_inner-climb step hash filled,
          (check_child_size_iff spec (step_hash step hash)).1 fits,
        )
        (apply_path_complete spec path (step_hash step hash) root up rest)

  HashesFit-none : (path : List InnerOp) (hash : Bytes) → HashesFit none path hash
  HashesFit-none [] hash = tt
  HashesFit-none (step ∷ path) hash = (tt, HashesFit-none path (step_hash step hash))

  -- The parts of a proof that leads to a root.
  pub record Leads (proof : ExistenceProof) (spec : Option InnerSpec) (root : Bytes) : Type 0 where
    pub leaf : LeafOp
    pub has_leaf : proof.leaf ≡ some leaf
    pub has_key : is_empty proof.key ≡ false
    pub has_value : is_empty proof.value ≡ false
    pub hash : Bytes
    pub leaf_hash : apply_leaf leaf proof.key proof.value ≡ ok hash
    pub climbs : Climbs proof.path hash root
    pub fits : HashesFit spec proof.path hash

  root_from_leaf-Leads :
      (proof : ExistenceProof) (spec : Option ProofSpec) (root : Bytes) (l : Option LeafOp)
      → proof.leaf ≡ l
      → is_empty proof.key ≡ false
      → is_empty proof.value ≡ false
      → root_from_leaf proof spec l ≡ ok root
      → Leads proof (inner_spec_of spec) root
  root_from_leaf-Leads proof spec root none p k v e = cc
  root_from_leaf-Leads proof spec root (some leaf) p k v e =
      let (hash, hashed, up) = >>=-eq-ok (apply_leaf leaf proof.key proof.value) _ e in
      let (c, f) = apply_path_sound (inner_spec_of spec) proof.path hash root up in
      record {
        leaf = leaf;
        has_leaf = p;
        has_key = k;
        has_value = v;
        hash = hash;
        leaf_hash = hashed;
        climbs = c;
        fits = f;
      }

  -- A root is calculated exactly from a proof that leads to it.
  pub calculate_existence_root_for_spec_iff :
      (proof : ExistenceProof) (spec : Option ProofSpec) (root : Bytes)
      → (calculate_existence_root_for_spec proof spec ≡ ok root)
        ↔ Leads proof (inner_spec_of spec) root
  unfolding calculate_existence_root_for_spec
  calculate_existence_root_for_spec_iff proof spec root = (
    λ e.
        let (k, e₁) = >>-eq-ok (ensure (not (is_empty proof.key)) key_not_set) _ e in
        let (v, e₂) = >>-eq-ok (ensure (not (is_empty proof.value)) value_not_set) _ e₁ in
        root_from_leaf-Leads proof spec root proof.leaf refl
          ((not-eq-true _).0 ((ensure_iff _ _).0 k)) ((not-eq-true _).0 ((ensure_iff _ _).0 v)) e₂,
    λ l.
        rw (l.has_key, l.has_value, l.has_leaf, l.leaf_hash)
          (apply_path_complete (inner_spec_of spec) proof.path l.hash root l.climbs l.fits),
  )

  -- `verify_existence` accepts a proof exactly if it passes the check against the spec, is about the
  -- given key and value, and leads to the given root by nodes whose hashes fit the spec.
  pub verify_existence_iff :
      (proof : ExistenceProof) (spec : ProofSpec) (root key value : Bytes)
      → (verify_existence proof spec root key value ≡ ok tt) ↔ (
          (check_existence_spec proof spec ≡ ok tt)
          × (proof.key ≡ key)
          × (proof.value ≡ value)
          × Leads proof spec.inner_spec root)
  unfolding verify_existence
  verify_existence_iff proof spec root key value = (
    λ e.
        let (checked, e₁) = >>-eq-ok (check_existence_spec proof spec) _ e in
        let (k, e₂) = >>-eq-ok (ensure (bytes_eq proof.key key) key_mismatch) _ e₁ in
        let (v, e₃) = >>-eq-ok (ensure (bytes_eq proof.value value) value_mismatch) _ e₂ in
        let (calc, c, e₄) = >>=-eq-ok (calculate_existence_root_for_spec proof (some spec)) _ e₃ in
        let same = (bytes_eq_iff calc root).0 ((ensure_iff _ _).0 e₄) in
        (
          checked,
          (bytes_eq_iff proof.key key).0 ((ensure_iff _ _).0 k),
          (bytes_eq_iff proof.value value).0 ((ensure_iff _ _).0 v),
          (calculate_existence_root_for_spec_iff proof (some spec) root).0 (c ∙ ap ok same),
        ),
    λ (checked, k, v, l). rw (
      checked,
      (bytes_eq_iff proof.key key).1 k,
      (bytes_eq_iff proof.value value).1 v,
      (calculate_existence_root_for_spec_iff proof (some spec) root).1 l,
      (bytes_eq_iff root root).1 refl,
    ),
  )

  -- An accepted proof leads to the given root also by `calculate_existence_root`, which knows no spec.
  pub calculate-verify :
      (proof : ExistenceProof) (spec : ProofSpec) (root key value : Bytes)
      → verify_existence proof spec root key value ≡ ok tt
      → calculate_existence_root proof ≡ ok root
  unfolding calculate_existence_root
  calculate-verify proof spec root key value e =
      let (_, _, _, l) = (verify_existence_iff proof spec root key value).0 e in
      (calculate_existence_root_for_spec_iff proof none root).1 (record {
        leaf = l.leaf;
        has_leaf = l.has_leaf;
        has_key = l.has_key;
        has_value = l.has_value;
        hash = l.hash;
        leaf_hash = l.leaf_hash;
        climbs = l.climbs;
        fits = HashesFit-none proof.path l.hash;
      })
