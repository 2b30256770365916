-- ===== src/Verify/Tree/Soundness.antt =====
-- An existence proof of rust/src/verify.rs whose root is a tree's leads down the tree to its pair, or
-- exhibits a collision.
use ics.Prelude.{
  ℕ, suc, ◌+◌, ◌-◌, ◌*◌, ◌/◌, ◌%◌, ◌≤◌, ◌<◌, ◌≡◌, refl, sym, ap, ◌∙◌, ◌⊎◌, inl, inr, List, [], ◌∷◌,
  ◌++◌, length, All, arith, append_inj, length-append,
}
use ics.Prelude.Bytes.{Bytes}
use ics.Prelude.Numbered.{join, from, join_split, length-join}
use ics.Prelude.Result.{ok}
use ics.Proto.Types.{LeafOp, InnerOp, InnerSpec}
use ics.Proto.Prost.{Prost, ProstLaws}
use ics.Host.{HostFunctionsProvider}
use ics.Ops.{do_hash, apply_leaf}
use ics.Ops.Framing.{IsFraming}
use ics.Ops.Binding.{
  eq_or_Collides, inner_image, FitsLength, apply_leaf_binding, apply_leaf-LeafParts,
  LeafParts-image,
}
use ics.Verify.Conformance.Laws.{Begins, Begins-of_length_le, IsSpecInner}
use ics.Verify.Existence.Laws.{step_hash}
use ics.Verify.Tree.{Tree, hole, leaf, node, HasHash, absent, pair, branch, hash_of}
use ics.Verify.Tree.Descent.{
  PathText, StandsAt, rise, Descends, arrives, steps, leaf_text, step_text, pair_text, node_text,
  itself, Clash, texts, pairs, fills_hole, Clash-child,
}
use mathlib.Core.List.{append_assoc}
use native.Mathlib.Nat.{div-add-mod', add-mul, le_of_mul-le-mul_right}

-- A prefix that ends between two children, as a suffix of whole children leaves it.
branch_of :
    (front back n size min : ℕ)
    → 0 < size
    → min ≤ front
    → back % size ≡ 0
    → front + size + back ≡ min + n * size
    → (b : ℕ) × (b < n) × (front ≡ min + b * size)
branch_of front back n size min pos_size low whole sum =
    let q = back / size in
    let rest : back ≡ q * size = omega (arith, div-add-mod' back size, whole) in
    let one_more : (q + 1) * size ≡ q * size + size = omega (arith, add-mul q 1 size) in
    let room : q + 1 ≤ n =
      le_of_mul-le-mul_right (omega (arith, sum, low, rest, one_more)) pos_size in
    let b = n - (q + 1) in
    let count : n ≡ b + (q + 1) = omega (arith, room) in
    let split : n * size ≡ b * size + (q + 1) * size =
      ap (λ m. m * size) count ∙ add-mul b (q + 1) size in
    (b, omega (arith, room), omega (arith, sum, rest, one_more, split))

module _ ⦃prost : Prost⦄ ⦃host : HostFunctionsProvider⦄ (op : LeafOp) (inner : InnerSpec)
    (n size min : ℕ) (size_pos : 0 < size) where
  -- A step that hashes the text of a node stands over one of its children.
  step_stands :
      (step : InnerOp) (hash header : Bytes) (hashes : ℕ → Bytes)
      → IsSpecInner step op inner n size min min
      → length hash ≡ size
      → length header ≡ min
      → ((i : ℕ) → i < n → length (hashes i) ≡ size)
      → inner_image step hash ≡ header ++ join n hashes
      → (b : ℕ) × StandsAt n step b header hashes × (hash ≡ hashes b)
  step_stands step hash header hashes form long head sizes e =
      let whole = ap length e in
      let (b, below, front) =
        branch_of (length step.prefix) (length step.suffix) n size min size_pos form.prefix_min
          form.suffix_whole
          (omega (
            arith,
            whole,
            length-append (step.prefix ++ hash) step.suffix,
            length-append step.prefix hash,
            length-append header (join n hashes),
            length-join n size hashes sizes,
            long,
            head,
          )) in
      let rest = join (n - 1 - b) (from (suc b) hashes) in
      let text : (step.prefix ++ hash) ++ step.suffix
          ≡ ((header ++ join b hashes) ++ hashes b) ++ rest =
        e
        ∙ ap (λ t. header ++ t) (join_split n b (n - 1 - b) hashes (omega (arith, below)))
        ∙ sym (append_assoc header (join b hashes) (hashes b ++ rest))
        ∙ sym (append_assoc (header ++ join b hashes) (hashes b) rest) in
      let fronts : length step.prefix ≡ length (header ++ join b hashes) = omega (
        arith,
        front,
        head,
        length-append header (join b hashes),
        length-join b size hashes (λ i h. sizes i (omega (arith, below))),
      ) in
      let (left, right) =
        append_inj (step.prefix ++ hash) step.suffix ((header ++ join b hashes) ++ hashes b) rest
          (omega (
            arith,
            fronts,
            length-append step.prefix hash,
            length-append (header ++ join b hashes) (hashes b),
            long,
            sizes b below,
          ))
          text in
      let (pre, child) =
        append_inj step.prefix hash (header ++ join b hashes) (hashes b) fronts left in
      (b, record { branch-lt = below; prefix = pre; suffix = right }, child)

  abbrev pub Form : InnerOp → Type 0
  Form step = IsSpecInner step op inner n size min min

  -- The hash of a step is the spec's.
  step_hash-eq :
      (step : InnerOp) (hash : Bytes)
      → Form step
      → step_hash step hash ≡ hash_of inner (inner_image step hash)
  step_hash-eq step hash form =
      ap (λ h. do_hash (prost.hash_op h) (inner_image step hash)) form.hash

  -- A pair whose leaf has a text, under hashes of the size of a child.
  module _ (laws : ProstLaws prost) (framing : IsFraming (prost.length_op op.length))
      (same_hash : op.hash ≡ inner.hash) (short : length op.prefix ≤ min)
      (hash_size : (text : Bytes) → length (hash_of inner text) ≡ size)
      (key value over contents : Bytes) (fits : FitsLength op key value)
      (begins : over ≡ op.prefix ++ contents)
      (hashed : apply_leaf op key value ≡ ok (hash_of inner over)) where
    -- What a path makes of the leaf's hash is the hash of a text.
    path_top :
        (path : List InnerOp)
        → All Form path
        → (text : Bytes) × PathText op inner n size min over path text
          × (rise path (hash_of inner over) ≡ hash_of inner text)
    path_top [] forms = (over, leaf_text refl, refl)
    path_top (step ∷ path) (form, forms) =
        let hash = rise path (hash_of inner over) in
        (inner_image step hash, step_text refl, step_hash-eq step hash form)

    abbrev Outcome : Tree → List InnerOp → Type 0
    Outcome t path =
        Descends op inner n size min t path key value
        ⊎ Clash op inner n size min t path key value over

    leaf_text-Begins :
        (front rest : Bytes)
        → over ≡ front ++ rest
        → length op.prefix ≤ length front
        → Begins op.prefix front
    leaf_text-Begins front rest e h =
        Begins-of_length_le op.prefix front contents rest h (sym begins ∙ e)

    pub descend :
        (t : Tree) (path : List InnerOp) (hash : Bytes)
        → HasHash op inner n size min t hash
        → All Form path
        → hash ≡ rise path (hash_of inner over)
        → Outcome t path
    descend hole path hash (absent e) forms up =
        let (x, p, h) = path_top path forms in inr (fills_hole x p (sym h ∙ sym up ∙ e))
    descend (leaf k v) [] hash (pair k_fits k_hashed _) forms up =
        elim (apply_leaf_binding laws op k v key value hash framing k_fits fits k_hashed
          (hashed ∙ ap ok (sym up))) [
            | inl (ek, ev) ↦ inl (arrives ek ev)
            | inr c ↦ inr (pairs k v itself c)
          ]
    descend (leaf k v) (step ∷ path) hash (pair k_fits k_hashed _) (form, forms) up =
        let parts = apply_leaf-LeafParts op k v hash k_hashed in
        let below = rise path (hash_of inner over) in
        let x = inner_image step below in
        let y = (op.prefix ++ parts.prekey) ++ parts.preval in
        let same_hashes : hash_of inner x ≡ hash_of inner y =
          sym (step_hash-eq step below form)
          ∙ sym up
          ∙ parts.hashed
          ∙ ap (λ h. do_hash (prost.hash_op h) y) same_hash in
        elim (eq_or_Collides (hash_of inner) x y same_hashes) [
          | inl same ↦ absurd (
              form.no_leaf (
                Begins-of_length_le op.prefix step.prefix (parts.prekey ++ parts.preval)
                  (below ++ step.suffix) (omega (arith, short, form.prefix_min))
                  (sym (append_assoc op.prefix parts.prekey parts.preval)
                    ∙ sym same
                    ∙ append_assoc step.prefix below step.suffix)))
          | inr c ↦ inr (texts x y (step_text refl) (pair_text (LeafParts-image op k v parts)) c)
        ]
    descend (node header child) [] hash (branch hashes head no_leaf below sizes is_hash _) forms
          up =
        let y = header ++ join n hashes in
        elim (eq_or_Collides (hash_of inner) over y (sym up ∙ is_hash)) [
          | inl same ↦
              absurd (
                no_leaf (leaf_text-Begins header (join n hashes) same (omega (arith, short, head))))
          | inr c ↦ inr (texts over y (leaf_text refl) (node_text hashes below refl) c)
        ]
    descend (node header child) (step ∷ path) hash
          (branch hashes head no_leaf below sizes is_hash _) (form, forms) up =
        let under = rise path (hash_of inner over) in
        let x = inner_image step under in
        let y = header ++ join n hashes in
        elim (eq_or_Collides (hash_of inner) x y
          (sym (step_hash-eq step under form) ∙ sym up ∙ is_hash)) [
            | inr c ↦ inr (texts x y (step_text refl) (node_text hashes below refl) c)
            | inl same ↦
                let (_, _, top) = path_top path forms in
                let (b, stands, here) =
                  step_stands step under header hashes form (ap length top ∙ hash_size _) head sizes
                    same in
                elim (descend (child b) path (hashes b) (below b stands.branch-lt) forms
                  (sym here)) [
                    | inl d ↦ inl (steps b hashes head below sizes stands d)
                    | inr c ↦ inr (Clash-child op inner n size min b stands.branch-lt c)
                  ]
          ]
