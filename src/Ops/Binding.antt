-- ===== src/Ops/Binding.antt =====
-- What the hash of a leaf or of an inner node of rust/src/ops.rs says of its input.
use ics.Prelude.{
  ◌<◌, ◌≡◌, refl, sym, ap, ◌∙◌, ◌≢◌, ◌⊎◌, inl, inr, false, [], ◌∷◌, ◌++◌, length, is_empty, arith,
  Bool-cases,
}
use ics.Prelude.Bytes.{Bytes, bytes_eq, bytes_eq_iff}
use ics.Prelude.Result.{Result, ok, ◌>>=◌, ok_inj, >>=-eq-ok}
use ics.Proto.Enums.{HashOp}
use ics.Proto.Types.{InnerOp, LeafOp}
use ics.Proto.Prost.{Prost, ProstLaws}
use ics.Host.{HostFunctionsProvider}
use ics.Ops.{do_hash, do_length, prepare_leaf_data, apply_leaf, apply_inner}
use ics.Ops.Framing.{IsFraming, max_length, do_length_framing}
use mathlib.Core.List.{append_assoc, append_cancel_left}

-- Two different inputs with one hash.
abbrev pub Collides : (Bytes → Bytes) → Bytes → Bytes → Type 0
Collides f x y = (x ≢ y) × (f x ≡ f y)

-- Equal hashes come from equal inputs or from a collision.
pub eq_or_Collides : (f : Bytes → Bytes) (x y : Bytes) → f x ≡ f y → (x ≡ y) ⊎ Collides f x y
eq_or_Collides f x y e = elim (Bool-cases (bytes_eq x y)) [
  | inl same ↦ inl ((bytes_eq_iff x y).0 same)
  | inr differ ↦ inr (ground (arith, bytes_eq_iff x y), e)
]

module _ ⦃prost : Prost⦄ ⦃host : HostFunctionsProvider⦄ where
  -- The text that is hashed for an inner node.
  abbrev pub inner_image : InnerOp → Bytes → Bytes
  inner_image inner child = (inner.prefix ++ child) ++ inner.suffix

  abbrev pub InnerCollides : InnerOp → Bytes → Bytes → Type 0
  InnerCollides inner a b =
      Collides (do_hash (prost.hash_op inner.hash)) (inner_image inner a) (inner_image inner b)

  pub apply_inner-eq-ok :
      (inner : InnerOp) (child out : Bytes)
      → apply_inner inner child ≡ ok out
      → (is_empty child ≡ false)
        × (out ≡ do_hash (prost.hash_op inner.hash) (inner_image inner child))
  unfolding apply_inner
  apply_inner-eq-ok inner [] out e = cc
  apply_inner-eq-ok inner (b ∷ bs) out e = (refl, sym (ok_inj e))

  pub prepare_leaf_data-eq-ok :
      (prehash : HashOp) (len : _) (message out : Bytes)
      → prepare_leaf_data prehash len message ≡ ok out
      → (is_empty message ≡ false) × (do_length len (do_hash prehash message) ≡ ok out)
  unfolding prepare_leaf_data
  prepare_leaf_data-eq-ok prehash len [] out e = cc
  prepare_leaf_data-eq-ok prehash len (b ∷ bs) out e = (refl, e)

  -- The parts of a leaf's hash.
  pub record LeafParts (leaf : LeafOp) (key value out : Bytes) : Type 0 where
    pub prekey : Bytes
    pub preval : Bytes
    pub key_length :
        do_length (prost.length_op leaf.length) (do_hash (prost.hash_op leaf.prehash_key) key)
        ≡ ok prekey
    pub value_length :
        do_length (prost.length_op leaf.length) (do_hash (prost.hash_op leaf.prehash_value) value)
        ≡ ok preval
    pub hashed : out ≡ do_hash (prost.hash_op leaf.hash) ((leaf.prefix ++ prekey) ++ preval)

  pub apply_leaf-LeafParts :
      (leaf : LeafOp) (key value out : Bytes)
      → apply_leaf leaf key value ≡ ok out
      → LeafParts leaf key value out
  unfolding apply_leaf
  apply_leaf-LeafParts leaf key value out e =
      let len = prost.length_op leaf.length in
      let (prekey, pk, e₁) =
        >>=-eq-ok (prepare_leaf_data (prost.hash_op leaf.prehash_key) len key) _ e in
      let (preval, pv, e₂) =
        >>=-eq-ok (prepare_leaf_data (prost.hash_op leaf.prehash_value) len value) _ e₁ in
      record {
        prekey = prekey;
        preval = preval;
        key_length = (prepare_leaf_data-eq-ok (prost.hash_op leaf.prehash_key) len key prekey pk).1;
        value_length =
            (prepare_leaf_data-eq-ok (prost.hash_op leaf.prehash_value) len value preval pv).1;
        hashed = sym (ok_inj e₂);
      }

  -- Prehashed keys and values short enough for the length operation.
  abbrev pub FitsLength : LeafOp → Bytes → Bytes → Type 0
  FitsLength leaf key value =
      (length (do_hash (prost.hash_op leaf.prehash_key) key)
        < max_length (prost.length_op leaf.length))
      × (length (do_hash (prost.hash_op leaf.prehash_value) value)
          < max_length (prost.length_op leaf.length))

  -- The text that is hashed for a leaf.
  abbrev pub leaf_image : LeafOp → Bytes → Bytes → Result Bytes
  leaf_image leaf key value = do
    prekey ← do_length (prost.length_op leaf.length) (do_hash (prost.hash_op leaf.prehash_key) key)
    preval ←
        do_length (prost.length_op leaf.length) (do_hash (prost.hash_op leaf.prehash_value) value)
    ok ((leaf.prefix ++ prekey) ++ preval)

  -- The ways in which two leaves can share a hash without being equal: a collision of the leaf's
  -- hash, of the key's prehash or of the value's.
  pub data LeafCollides (leaf : LeafOp) (k v k' v' : Bytes) : Type 0 where
    leaf_hash :
        (x y : Bytes)
        → leaf_image leaf k v ≡ ok x
        → leaf_image leaf k' v' ≡ ok y
        → Collides (do_hash (prost.hash_op leaf.hash)) x y
        → LeafCollides leaf k v k' v'
    key_prehash :
        Collides (do_hash (prost.hash_op leaf.prehash_key)) k k' → LeafCollides leaf k v k' v'
    value_prehash :
        Collides (do_hash (prost.hash_op leaf.prehash_value)) v v' → LeafCollides leaf k v k' v'

  pub LeafParts-image :
      (leaf : LeafOp) (k v : Bytes) {out : Bytes} (p : LeafParts leaf k v out)
      → leaf_image leaf k v ≡ ok ((leaf.prefix ++ p.prekey) ++ p.preval)
  LeafParts-image leaf k v p = rw p.key_length (rw p.value_length)

  module _ (laws : ProstLaws prost) where
    -- Leaves with one image have equal prehashes.
    prehashes_eq :
        (leaf : LeafOp) (k v k' v' : Bytes) {out : Bytes}
        → IsFraming (prost.length_op leaf.length)
        → FitsLength leaf k v
        → FitsLength leaf k' v'
        → (p : LeafParts leaf k v out) (q : LeafParts leaf k' v' out)
        → (leaf.prefix ++ p.prekey) ++ p.preval ≡ (leaf.prefix ++ q.prekey) ++ q.preval
        → (do_hash (prost.hash_op leaf.prehash_key) k ≡ do_hash (prost.hash_op leaf.prehash_key) k')
          × (do_hash (prost.hash_op leaf.prehash_value) v
              ≡ do_hash (prost.hash_op leaf.prehash_value) v')
    prehashes_eq leaf k v k' v' framing (fk, fv) (fk', fv') p q e =
        let op = prost.length_op leaf.length in
        let e' = append_cancel_left leaf.prefix (p.prekey ++ p.preval) (q.prekey ++ q.preval) (
          sym (append_assoc leaf.prefix p.prekey p.preval)
          ∙ e
          ∙ append_assoc leaf.prefix q.prekey q.preval) in
        let (keys, vals) =
          do_length_framing laws op _ _ p.prekey q.prekey p.preval q.preval framing fk fk'
            p.key_length q.key_length e' in
        let (values, _) =
          do_length_framing laws op _ _ p.preval q.preval [] [] framing fv fv' p.value_length
            q.value_length (ap (λ t. t ++ []) vals) in
        (keys, values)

    -- A leaf's hash binds its key and value: if the length operation frames its items and the items
    -- are not longer than its header can say, two pairs with one leaf hash are the same pair, or the
    -- two texts that were hashed collide, or the keys' or the values' prehashes do.
    pub apply_leaf_binding :
        (leaf : LeafOp) (k v k' v' out : Bytes)
        → IsFraming (prost.length_op leaf.length)
        → FitsLength leaf k v
        → FitsLength leaf k' v'
        → apply_leaf leaf k v ≡ ok out
        → apply_leaf leaf k' v' ≡ ok out
        → ((k ≡ k') × (v ≡ v')) ⊎ LeafCollides leaf k v k' v'
    apply_leaf_binding leaf k v k' v' out framing f f' a b =
        let p = apply_leaf-LeafParts leaf k v out a in
        let q = apply_leaf-LeafParts leaf k' v' out b in
        elim (eq_or_Collides (do_hash (prost.hash_op leaf.hash)) _ _ (sym p.hashed ∙ q.hashed)) [
          | inr c ↦
              inr (leaf_hash _ _ (LeafParts-image leaf k v p) (LeafParts-image leaf k' v' q) c)
          | inl same ↦
              let (keys, values) = prehashes_eq leaf k v k' v' framing f f' p q same in
              elim (eq_or_Collides (do_hash (prost.hash_op leaf.prehash_key)) k k' keys) [
                | inr c ↦ inr (key_prehash c)
                | inl ek ↦
                    elim (eq_or_Collides (do_hash (prost.hash_op leaf.prehash_value)) v v' values) [
                      | inr c ↦ inr (value_prehash c)
                      | inl ev ↦ inl (ek, ev)
                    ]
              ]
        ]
