-- ===== src/Membership/Laws.antt =====
-- The entry points of rust/src/api.rs, for a proof in any of its forms.
use ics.Prelude.{
  ◌≤◌, ◌≡◌, refl, sym, ◌∙◌, ◌↔◌, Bool, true, false, Option, none, some, List, [], ◌∷◌, All,
  if◌then◌else◌, subst,
}
use ics.Prelude.Bytes.{Bytes}
use ics.Prelude.Result.{Result, ok, err, panic, ◌>>=◌, >>=-eq-ok, ok_inj, IsSafe}
use ics.Proto.Types.{
  ProofSpec, ExistenceProof, NonExistenceProof, CommitmentProof, CommitmentOneof, BatchProof,
}
use ics.Proto.Prost.{Prost, ProstLaws}
use ics.Host.{HostFunctionsProvider}
use ics.Compress.{is_compressed, compress, decompress, decompress_batch, decompress_entries}
use ics.Compress.Table.{max_index}
use ics.Compress.Parts.{kind_count}
use ics.Compress.RoundTrip.{decompress-compress}
use ics.Verify.Existence.{verify_existence}
use ics.Verify.Existence.Safe.{HasI32Size, verify_existence-IsSafe}
use ics.Verify.NonExistence.{verify_non_existence}
use ics.Membership.{
  succeeds, all, decompressed, get_exist_proof, get_nonexist_proof, verify_found, verify_not_found,
  verify_membership, verify_non_membership, verify_batch_membership, verify_batch_non_membership,
}
use ics.Membership.Selection.{OffersExist, get_exist_proof_iff}
use ics.Membership.Exclusion.{OffersNonexist, get_nonexist_proof_iff}

succeeds_iff : (r : Result (Unit {0})) → (succeeds r ≡ ok true) ↔ (r ≡ ok tt)
succeeds_iff (ok tt) = (λ e. refl, λ e. refl)
succeeds_iff (err x) = (λ e. absurd (cc), λ e. absurd (cc))
succeeds_iff panic = (λ e. absurd (cc), λ e. absurd (cc))

-- Decompression always returns, and what it returns is not compressed.
decompressed-returns :
    (proof : CommitmentProof)
    → (p : CommitmentProof) × (decompressed proof ≡ ok p) × (decompressed p ≡ ok p)
unfolding decompressed is_compressed decompress decompress_batch
decompressed-returns proof = go proof.proof refl
  where
    go :
        (o : Option CommitmentOneof)
        → proof.proof ≡ o
        → (p : CommitmentProof) × (decompressed proof ≡ ok p) × (decompressed p ≡ ok p)
    go (some (CommitmentOneof.compressed c)) e =
        let batch : BatchProof = record {
          entries = decompress_entries c.lookup_inners c.entries;
        } in
        (record { proof = some (CommitmentOneof.batch batch) }, rw e, refl)
    go none e = (proof, rw e, rw e)
    go (some (CommitmentOneof.exist ex)) e = (proof, rw e, rw e)
    go (some (CommitmentOneof.nonexist non)) e = (proof, rw e, rw e)
    go (some (CommitmentOneof.batch batch)) e = (proof, rw e, rw e)

-- `all` says yes exactly if each test does.
all_iff :
    {A : Type 0} (test : A → Result Bool) (xs : List A)
    → (all test xs ≡ ok true) ↔ All (λ x. test x ≡ ok true) xs
unfolding all
all_iff test [] = (λ e. tt, λ a. refl)
all_iff test (x ∷ xs) = (
  λ e. let (h, t) = both (test x) (all test xs) e in (h, (all_iff test xs).0 t),
  λ (h, t). rw h ((all_iff test xs).1 t),
)
  where
    both :
        (m k : Result Bool)
        → (m >>= λ b. if b then k else ok false) ≡ ok true
        → (m ≡ ok true) × (k ≡ ok true)
    both (ok true) k e = (refl, e)
    both (ok false) k e = absurd (cc)
    both (err x) k e = absurd (cc)
    both panic k e = absurd (cc)

-- Decompression is `decompress`, which gives back what is not compressed.
decompressed-decompress : (proof : CommitmentProof) → decompressed proof ≡ decompress proof
unfolding decompressed is_compressed decompress
decompressed-decompress proof = go proof.proof refl
  where
    go : (o : Option CommitmentOneof) → proof.proof ≡ o → decompressed proof ≡ decompress proof
    go none e = rw e
    go (some (CommitmentOneof.exist ex)) e = rw e
    go (some (CommitmentOneof.nonexist non)) e = rw e
    go (some (CommitmentOneof.batch batch)) e = rw e
    go (some (CommitmentOneof.compressed c)) e = rw e

module _ ⦃prost : Prost⦄ ⦃host : HostFunctionsProvider⦄ where
  verify_found_iff :
      (spec : ProofSpec) (root key value : Bytes) (o : Option ExistenceProof)
      → (verify_found spec root key value o ≡ ok true) ↔ (
          (ex : ExistenceProof) × (o ≡ some ex) × (verify_existence ex spec root key value ≡ ok tt))
  verify_found_iff spec root key value none = (λ e. absurd (cc), λ (ex, p, _). absurd (cc))
  verify_found_iff spec root key value (some ex) = (
    λ e. (ex, refl, (succeeds_iff _).0 e),
    λ (x, p, v).
        let same : x ≡ ex = cc in
        (succeeds_iff _).1 (subst (λ y. verify_existence y spec root key value ≡ ok tt) same v),
  )

  -- `verify_membership` says yes exactly if the decompressed proof offers an existence proof for the
  -- key and `verify_existence` accepts that proof.
  pub verify_membership_iff :
      (proof : CommitmentProof) (spec : ProofSpec) (root key value : Bytes)
      → (verify_membership proof spec root key value ≡ ok true) ↔ (
          (p : CommitmentProof) × (ex : ExistenceProof) × (decompressed proof ≡ ok p)
          × OffersExist key p.proof ex
          × (verify_existence ex spec root key value ≡ ok tt))
  unfolding verify_membership
  verify_membership_iff proof spec root key value =
      let (p, d, _) = decompressed-returns proof in
      rw d (
        λ e.
            let (ex, found, v) =
              (verify_found_iff spec root key value (get_exist_proof p key)).0 e in
            (p, ex, refl, (get_exist_proof_iff p key ex).0 found, v),
        λ (q, ex, same, offers, v).
            (verify_found_iff spec root key value (get_exist_proof p key)).1 (
              ex,
              (get_exist_proof_iff p key ex).1
                  (subst (λ x. OffersExist key x.proof ex) (sym (ok_inj same)) offers),
              v,
            ),
      )

  -- Under a spec whose child size is in the range of an i32, as every one in Rust is, `verify_membership`
  -- answers yes or no on every proof, root, key and value: it never panics.
  pub verify_membership-returns :
      (proof : CommitmentProof) (spec : ProofSpec) (root key value : Bytes)
      → HasI32Size spec.inner_spec
      → (b : Bool) × (verify_membership proof spec root key value ≡ ok b)
  unfolding verify_membership
  verify_membership-returns proof spec root key value range =
      let (p, d, _) = decompressed-returns proof in rw d (answer (get_exist_proof p key))
    where
      answer :
          (o : Option ExistenceProof) → (b : Bool) × (verify_found spec root key value o ≡ ok b)
      answer none = (false, refl)
      answer (some ex) =
          safe (verify_existence ex spec root key value)
            (verify_existence-IsSafe ex spec root key value range)
        where
          safe : (r : Result (Unit {0})) → IsSafe r → (b : Bool) × (succeeds r ≡ ok b)
          safe (ok x) s = (true, refl)
          safe (err x) s = (false, refl)
          safe panic s = elim s [ ]

  verify_not_found_iff :
      (spec : ProofSpec) (root key : Bytes) (o : Option NonExistenceProof)
      → (verify_not_found spec root key o ≡ ok true) ↔ (
          (non : NonExistenceProof) × (o ≡ some non)
          × (verify_non_existence non spec root key ≡ ok tt))
  verify_not_found_iff spec root key none = (λ e. absurd (cc), λ (non, p, _). absurd (cc))
  verify_not_found_iff spec root key (some non) = (
    λ e. (non, refl, (succeeds_iff _).0 e),
    λ (x, p, v).
        let same : x ≡ non = cc in
        (succeeds_iff _).1 (subst (λ y. verify_non_existence y spec root key ≡ ok tt) same v),
  )

  -- `verify_non_membership` says yes exactly if the decompressed proof offers a non-existence proof
  -- whose keys enclose the key and `verify_non_existence` accepts that proof.
  pub verify_non_membership_iff :
      (proof : CommitmentProof) (spec : ProofSpec) (root key : Bytes)
      → (verify_non_membership proof spec root key ≡ ok true) ↔ (
          (p : CommitmentProof) × (non : NonExistenceProof) × (decompressed proof ≡ ok p)
          × OffersNonexist key spec p.proof non
          × (verify_non_existence non spec root key ≡ ok tt))
  unfolding verify_non_membership
  verify_non_membership_iff proof spec root key =
      let (p, d, _) = decompressed-returns proof in
      rw d (
        λ e.
            let (non, found, v) =
              (verify_not_found_iff spec root key (get_nonexist_proof p key spec)).0 e in
            (p, non, refl, (get_nonexist_proof_iff p key spec non).0 found, v),
        λ (q, non, same, offers, v).
            (verify_not_found_iff spec root key (get_nonexist_proof p key spec)).1 (
              non,
              (get_nonexist_proof_iff p key spec non).1
                  (subst (λ x. OffersNonexist key spec x.proof non) (sym (ok_inj same)) offers),
              v,
            ),
      )

  -- `verify_batch_membership` says yes exactly if `verify_membership` does for each item.
  pub verify_batch_membership_iff :
      (proof : CommitmentProof) (spec : ProofSpec) (root : Bytes) (items : List (Bytes × Bytes))
      → (verify_batch_membership proof spec root items ≡ ok true)
        ↔ All (λ item. verify_membership proof spec root item.0 item.1 ≡ ok true) items
  unfolding verify_batch_membership verify_membership
  verify_batch_membership_iff proof spec root items =
      let (p, d, plain) = decompressed-returns proof in
      rw (d, plain)
        (all_iff (λ item. verify_found spec root item.0 item.1 (get_exist_proof p item.0)) items)

  -- `verify_batch_non_membership` says yes exactly if `verify_non_membership` does for each key.
  pub verify_batch_non_membership_iff :
      (proof : CommitmentProof) (spec : ProofSpec) (root : Bytes) (keys : List Bytes)
      → (verify_batch_non_membership proof spec root keys ≡ ok true)
        ↔ All (λ key. verify_non_membership proof spec root key ≡ ok true) keys
  unfolding verify_batch_non_membership verify_non_membership
  verify_batch_non_membership_iff proof spec root keys =
      let (p, d, plain) = decompressed-returns proof in
      rw (d, plain)
        (all_iff (λ key. verify_not_found spec root key (get_nonexist_proof p key spec)) keys)

  module _ (laws : ProstLaws prost) where
    compress-decompressed :
        (proof : CommitmentProof)
        → is_compressed proof ≡ false
        → kind_count proof.proof ≤ max_index
        → (c : CommitmentProof) × (compress proof ≡ ok c) × (decompressed c ≡ ok proof)
    compress-decompressed proof plain room =
        let (c, compressed, restored) =
          >>=-eq-ok (compress proof) decompress (decompress-compress laws proof plain room) in
        (c, compressed, decompressed-decompress c ∙ restored)

    plain_decompressed :
        (proof : CommitmentProof) → is_compressed proof ≡ false → decompressed proof ≡ ok proof
    unfolding decompressed
    plain_decompressed proof plain = rw plain

    -- A proof answers the same compressed as it did before, if the inner nodes of its batch, counted
    -- with repetitions, are at most 2 ^ 31.
    pub verify_membership-compress :
        (proof : CommitmentProof) (spec : ProofSpec) (root key value : Bytes)
        → is_compressed proof ≡ false
        → kind_count proof.proof ≤ max_index
        → ((compress proof >>= λ c. verify_membership c spec root key value)
            ≡ verify_membership proof spec root key value)
          × ((compress proof >>= λ c. verify_non_membership c spec root key)
              ≡ verify_non_membership proof spec root key)
    unfolding verify_membership verify_non_membership
    verify_membership-compress proof spec root key value plain room =
        let (c, compressed, restored) = compress-decompressed proof plain room in
        let same = plain_decompressed proof plain in rw (compressed, restored, same) (refl, refl)
