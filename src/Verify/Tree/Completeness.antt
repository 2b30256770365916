-- ===== src/Verify/Tree/Completeness.antt =====
-- Every pair of a tree has a proof that rust/src/verify.rs accepts: its leaf with the steps above it.
use ics.Prelude.{
  ℕ, suc, ◌<◌, ◌≡◌, refl, sym, ap, ◌∙◌, subst, inl, false, some, List, [], ◌∷◌, ◌++◌, length,
  reverse, arith,
}
use ics.Prelude.Bytes.{Bytes}
use ics.Prelude.Int.{pos}
use ics.Prelude.Numbered.{join}
use ics.Prelude.Result.{ok}
use ics.Proto.Types.{LeafOp, InnerOp, InnerSpec, ProofSpec}
use ics.Proto.Prost.{Prost}
use ics.Host.{HostFunctionsProvider}
use ics.Ops.{do_hash, apply_leaf}
use ics.Ops.Binding.{apply_leaf-LeafParts}
use ics.Api.Specs.{is_iavl_spec}
use ics.Verify.Conformance.Laws.{Begins, IsSpecInner}
use ics.Verify.Conformance.Checked.{StepsFit, check_existence_spec_iff}
use ics.Verify.Existence.{verify_existence}
use ics.Verify.Existence.Laws.{step_hash, Climbs, arrived, HashesFit, verify_existence_iff}
use ics.Verify.Tree.{Tree, entries, HasHash, absent, pair, branch, hash_of}
use ics.Verify.Tree.Descent.{HoldsPair, itself, in_child}
use ics.Verify.Tree.Refinement.{IsUniform}
use mathlib.Core.List.{append-nil, Memᴰ, reverse-cons}
use ics.Verify.Tree.Steps.{
  filled, Climbs-top, HashesFit-top, apply_leaf-filled, HoldsPair-of_Mem, plain_proof, step_over,
  step_over-image, length-FitsChild, step_over-form,
}

module _ ⦃prost : Prost⦄ ⦃host : HostFunctionsProvider⦄ (spec : ProofSpec) (op : LeafOp)
    (inner : InnerSpec) (n size min : ℕ) (u : IsUniform spec op inner n size min) where
  -- A path as the prover builds it, from the root down, with what the verifier checks of it from the
  -- leaf up.
  pub record Honest (root key value : Bytes) (down : List InnerOp) : Type 0 where
    pub hash : Bytes
    pub hashed : apply_leaf op key value ≡ ok hash
    pub climbs : Climbs (reverse down) hash root
    pub fits : HashesFit spec.inner_spec (reverse down) hash
    pub form : StepsFit spec op inner n size min min 0 (reverse down)
    pub long : length root ≡ size

  pub Honest-leaf :
      {root key value : Bytes} → apply_leaf op key value ≡ ok root → Honest root key value []
  Honest-leaf {root = root} {key = key} {value = value} hashed =
      let parts = apply_leaf-LeafParts op key value root hashed in
      record {
        hash = root;
        hashed = hashed;
        climbs = arrived;
        fits = tt;
        form = tt;
        long =
            ap length (
              parts.hashed
              ∙ ap (λ h. do_hash (prost.hash_op h) ((op.prefix ++ parts.prekey) ++ parts.preval))
                  u.same_hash)
            ∙ u.hash_size _;
      }

  module _ (other : is_iavl_spec spec ≡ false) where
    StepsFit-top :
        (path : List InnerOp) (step : InnerOp) (idx : ℕ)
        → StepsFit spec op inner n size min min idx path
        → IsSpecInner step op inner n size min min
        → StepsFit spec op inner n size min min idx (path ++ step ∷ [])
    StepsFit-top [] step idx h form = (inl other, form, tt)
    StepsFit-top (p ∷ path) step idx (header, here, rest) form =
        (header, here, StepsFit-top path step (suc idx) rest form)

    -- A path below a node, with the step that stands over it.
    pub Honest-step :
        {header root key value : Bytes} {down : List InnerOp} (hashes : ℕ → Bytes) (i : ℕ)
        → length header ≡ min
        → ¬ Begins op.prefix header
        → ((i : ℕ) → i < n → length (hashes i) ≡ size)
        → root ≡ hash_of inner (header ++ join n hashes)
        → i < n
        → Honest (hashes i) key value down
        → Honest root key value (step_over spec op inner n size min u header hashes i ∷ down)
    Honest-step {header = header} {root = root} {down = down} hashes i head no_leaf sizes is_hash h
          b =
        let step = step_over spec op inner n size min u header hashes i in
        let top : step_hash step (hashes i) ≡ root =
          ap (hash_of inner) (step_over-image spec op inner n size min u header hashes i h)
          ∙ sym is_hash in
        let long : length root ≡ size = ap length is_hash ∙ u.hash_size _ in
        let up = sym (reverse-cons step down) in
        record {
          hash = b.hash;
          hashed = b.hashed;
          climbs =
              subst (λ p. Climbs p b.hash root) up
                (subst (Climbs (reverse down ++ step ∷ []) b.hash) top (
                  Climbs-top (reverse down) step b.hash (hashes i) b.climbs
                    (filled (hashes i) (omega (arith, sizes i h, u.sized.size_pos)))));
          fits =
              subst (λ p. HashesFit spec.inner_spec p b.hash) up
                (HashesFit-top spec.inner_spec (reverse down) step b.hash (hashes i) b.climbs b.fits
                  (length-FitsChild spec op inner n size min u _ (ap length top ∙ long)));
          form = subst (StepsFit spec op inner n size min min 0) up (
              StepsFit-top (reverse down) step 0 b.form
                (step_over-form spec op inner n size min u header hashes i h head no_leaf sizes));
          long = long;
        }

    Honest-held :
        {t : Tree} {root key value : Bytes}
        → HasHash op inner n size min t root
        → HoldsPair op inner n size min t key value
        → (down : List InnerOp) × Honest root key value down
    Honest-held (pair fits hashed _) itself = ([], Honest-leaf hashed)
    Honest-held (absent _) held = elim held [ ]
    Honest-held (branch {header = header} hashes head no_leaf below sizes is_hash _)
          (in_child i h held) =
        let (down, b) = Honest-held (below i h) held in
        (
          step_over spec op inner n size min u header hashes i ∷ down,
          Honest-step hashes i head no_leaf sizes is_hash h b,
        )

    pub Honest-accepted :
        {root key value : Bytes} {down : List InnerOp}
        → spec.min_depth ≡ pos 0
        → Honest root key value down
        → verify_existence (plain_proof op key value (reverse down)) spec root key value ≡ ok tt
    Honest-accepted {root = root} {key = key} {value = value} {down = down} shallow b =
        let proof = plain_proof op key value (reverse down) in
        let (has_key, has_value) = apply_leaf-filled op key value b.hash b.hashed in
        (verify_existence_iff proof spec root key value).1 (
          (check_existence_spec_iff spec op inner n size min min u.sized u.has_leaf u.has_inner
                proof).1
              (record {
                leaf = op;
                has_leaf = refl;
                leaf_header = inl other;
                leaf_form = record {
                  hash = refl;
                  prehash_key = refl;
                  prehash_value = refl;
                  length_op = refl;
                  prefix = ([], sym (append-nil op.prefix));
                };
                depth = inl shallow;
                steps = b.form;
              }),
          refl,
          refl,
          record {
            leaf = op;
            has_leaf = refl;
            has_key = has_key;
            has_value = has_value;
            hash = b.hash;
            leaf_hash = b.hashed;
            climbs = b.climbs;
            fits = b.fits;
          },
        )

    -- For a uniform spec other than the IAVL one without a minimum depth, and a tree with the root,
    -- every pair of the tree has a path with which `verify_existence` accepts it.
    pub verify_existence_complete :
        (t : Tree) (root key value : Bytes)
        → HasHash op inner n size min t root
        → spec.min_depth ≡ pos 0
        → Memᴰ (key, value) (entries n t)
        → (path : List InnerOp) × (verify_existence
              (record { key = key; value = value; leaf = some op; path = path })
              spec
              root
              key
              value
            ≡ ok tt)
    verify_existence_complete t root key value rooted shallow m =
        let (down, b) = Honest-held rooted (HoldsPair-of_Mem spec op inner n size min u t m) in
        (reverse down, Honest-accepted shallow b)
