-- ===== src/Api/Prefix/Headers.antt =====
-- The header that the prefix checks of rust/src/api.rs look for, described without the checks.
use ics.Prelude.{
  ℕ, ◌+◌, ◌*◌, ◌≡◌, refl, sym, ◌↔◌, ◌⊎◌, inl, inr, Bool, true, false, ◌||◌, Option, none, some,
  ◌++◌, length, ◌==◌, leb→le, le→leb, arith, if◌then◌else◌, subst, not,
}
use ics.Prelude.Bytes.{Bytes}
use ics.Prelude.Int.{ℤ, pos, negsuc, ◌≤ℤ◌, IsI64, leb_ℤ, eqb_ℤ_iff}
use ics.Prelude.Result.{
  bad_layer_prefix, Result, ok, ok_or, ensure, ensure_iff, ok_inj, >>=-eq-ok, >>-eq-ok, Error,
  height_undecodable, wrong_height, size_undecodable, wrong_size, version_undecodable,
  wrong_version,
}
use ics.Proto.Enums.{hash_op_i32, sha256}
use ics.Proto.Types.{ProofSpec}
use ics.Proto.Prost.{Prost, ProstLaws}
use ics.Api.Specs.{is_iavl_spec}
use ics.Api.Prefix.{
  zigzag, read_varint, leaf_remaining, inner_remaining, ensure_iavl_prefix, ensure_leaf_prefix,
  ensure_inner_prefix,
}

ok_or-eq-ok {ℓ} : {A : Type ℓ} (o : Option A) (e : Error) {a : A} → ok_or o e ≡ ok a → o ≡ some a
ok_or-eq-ok none e h = cc
ok_or-eq-ok (some a) e h = cc

gate_iff :
    (b : Bool) (m : Result (Unit {0}))
    → ((if not b then ok tt else m) ≡ ok tt) ↔ ((b ≡ false) ⊎ (m ≡ ok tt))
gate_iff true m = (λ e. inr e, λ d. elim d [ inl f ↦ cc | inr e ↦ e ])
gate_iff false m = (λ e. inl refl, λ d. refl)

nothing_left :
    (remaining : Option ℕ) (n : ℕ) → remaining ≡ some n → leaf_remaining remaining ≡ ok tt → n ≡ 0
nothing_left none n e h = cc
nothing_left (some m) n e h = ground arith

one_or_34 :
    (remaining : Option ℕ) (n : ℕ) (hash_op : ℤ)
    → remaining ≡ some n
    → inner_remaining hash_op remaining ≡ ok tt
    → ((n ≡ 1) ⊎ (n ≡ 34)) × (hash_op ≡ hash_op_i32 sha256)
one_or_34 none n hash_op e h = cc
one_or_34 (some m) n hash_op e h =
    let (width, hash) = >>-eq-ok (ensure (m == 1 || m == 34) bad_layer_prefix) _ h in
    (ground arith, (eqb_ℤ_iff hash_op (hash_op_i32 sha256)).0 ((ensure_iff _ _).0 hash))

-- The unsigned number that stands for a signed one in the zigzag code.
abbrev pub unzigzag : ℤ → ℕ
unzigzag (pos n) = 2 * n
unzigzag (negsuc n) = 2 * n + 1

zigzag-unzigzag : (a : ℤ) → IsI64 a → zigzag (unzigzag a) ≡ some a
unfolding zigzag
zigzag-unzigzag (pos n) h = ground arith
zigzag-unzigzag (negsuc n) h = ground arith

module _ ⦃prost : Prost⦄ where
  -- A signed varint as an IAVL tree writes it.
  abbrev pub write_varint : ℤ → Bytes
  write_varint a = prost.encode_varint (unzigzag a)

  -- `read_varint` reads back every i64 and leaves what follows it.
  pub read_varint-write_varint :
      (laws : ProstLaws prost) (a : ℤ) (rest : Bytes)
      → IsI64 a
      → read_varint (write_varint a ++ rest) ≡ some (a, rest)
  unfolding read_varint
  read_varint-write_varint laws (pos n) rest h =
      rw (laws.decode-encode (2 * n) rest (omega arith)) (rw (zigzag-unzigzag (pos n) h))
  read_varint-write_varint laws (negsuc n) rest h =
      rw (laws.decode-encode (2 * n + 1) rest (omega arith)) (rw (zigzag-unzigzag (negsuc n) h))

  -- A prefix that begins with a header of an IAVL node: three varints, the height no less than the
  -- layer, size and version not negative; `remaining` bytes follow.
  pub record IavlHeader (prefix : Bytes) (min_height : ℤ) (remaining : ℕ) : Type 0 where
    pub height : ℤ
    pub size : ℤ
    pub version : ℤ
    pub after_height : Bytes
    pub after_size : Bytes
    pub after_version : Bytes
    pub reads_height : read_varint prefix ≡ some (height, after_height)
    pub reads_size : read_varint after_height ≡ some (size, after_size)
    pub reads_version : read_varint after_size ≡ some (version, after_version)
    pub height_fits : min_height ≤ℤ height
    pub size_fits : pos 0 ≤ℤ size
    pub version_fits : pos 0 ≤ℤ version
    pub remaining_length : length after_version ≡ remaining

  ensure_iavl_prefix-IavlHeader :
      (prefix : Bytes) (min_height : ℤ) (remaining : Option ℕ)
      → ensure_iavl_prefix prefix min_height ≡ ok remaining
      → (n : ℕ) × (remaining ≡ some n) × IavlHeader prefix min_height n
  unfolding ensure_iavl_prefix
  ensure_iavl_prefix-IavlHeader prefix min_height remaining e =
      let ((height, rest), r₁, e₁) =
        >>=-eq-ok (ok_or (read_varint prefix) height_undecodable) _ e in
      let (g₁, e₂) = >>-eq-ok (ensure (leb_ℤ min_height height) wrong_height) _ e₁ in
      let ((size, rest'), r₂, e₃) = >>=-eq-ok (ok_or (read_varint rest) size_undecodable) _ e₂ in
      let (g₂, e₄) = >>-eq-ok (ensure (leb_ℤ (pos 0) size) wrong_size) _ e₃ in
      let ((version, rest''), r₃, e₅) =
        >>=-eq-ok (ok_or (read_varint rest') version_undecodable) _ e₄ in
      let (g₃, e₆) = >>-eq-ok (ensure (leb_ℤ (pos 0) version) wrong_version) _ e₅ in
      (
        length rest'',
        sym (ok_inj e₆),
        record {
          height = height;
          size = size;
          version = version;
          after_height = rest;
          after_size = rest';
          after_version = rest'';
          reads_height = ok_or-eq-ok _ _ r₁;
          reads_size = ok_or-eq-ok _ _ r₂;
          reads_version = ok_or-eq-ok _ _ r₃;
          height_fits = leb→le _ _ ((ensure_iff _ _).0 g₁);
          size_fits = leb→le _ _ ((ensure_iff _ _).0 g₂);
          version_fits = leb→le _ _ ((ensure_iff _ _).0 g₃);
          remaining_length = refl;
        },
      )

  ensure_iavl_prefix_of_IavlHeader :
      (prefix : Bytes) (min_height : ℤ) (n : ℕ)
      → IavlHeader prefix min_height n
      → ensure_iavl_prefix prefix min_height ≡ ok (some n)
  unfolding ensure_iavl_prefix
  ensure_iavl_prefix_of_IavlHeader prefix min_height n h = rw (
    h.reads_height,
    le→leb _ _ h.height_fits,
    h.reads_size,
    le→leb _ _ h.size_fits,
    h.reads_version,
    le→leb _ _ h.version_fits,
    h.remaining_length,
  )

  -- `ensure_leaf_prefix` accepts every prefix for a spec that is not the IAVL one, and for the IAVL
  -- spec exactly the prefixes that are a header and nothing more.
  pub ensure_leaf_prefix_iff :
      (prefix : Bytes) (spec : ProofSpec)
      → (ensure_leaf_prefix prefix spec ≡ ok tt)
        ↔ ((is_iavl_spec spec ≡ false) ⊎ IavlHeader prefix (pos 0) 0)
  unfolding ensure_leaf_prefix
  ensure_leaf_prefix_iff prefix spec = (
    λ e. elim ((gate_iff (is_iavl_spec spec) _).0 e) [
      | inl other ↦ inl other
      | inr checked ↦
          let (remaining, read, rest) = >>=-eq-ok (ensure_iavl_prefix prefix (pos 0)) _ checked in
          let (n, same, header) = ensure_iavl_prefix-IavlHeader prefix (pos 0) remaining read in
          inr (subst (λ k. IavlHeader prefix (pos 0) k) (nothing_left remaining n same rest) header)
    ],
    λ d. (gate_iff (is_iavl_spec spec) _).1 (elim d [
      | inl other ↦ inl other
      | inr header ↦ inr (rw (ensure_iavl_prefix_of_IavlHeader prefix (pos 0) 0 header))
    ]),
  )

  -- `ensure_inner_prefix` accepts every prefix for a spec that is not the IAVL one. For the IAVL spec
  -- it accepts exactly the prefixes that are a header of at least the given height followed by 1 byte
  -- or 34, on a step whose hash is SHA-256.
  pub ensure_inner_prefix_iff :
      (prefix : Bytes) (spec : ProofSpec) (min_height hash_op : ℤ)
      → (ensure_inner_prefix prefix spec min_height hash_op ≡ ok tt) ↔ (
          (is_iavl_spec spec ≡ false)
          ⊎ ((IavlHeader prefix min_height 1 ⊎ IavlHeader prefix min_height 34)
              × (hash_op ≡ hash_op_i32 sha256)))
  unfolding ensure_inner_prefix
  ensure_inner_prefix_iff prefix spec min_height hash_op = (
    λ e. elim ((gate_iff (is_iavl_spec spec) _).0 e) [
      | inl other ↦ inl other
      | inr checked ↦
          let (remaining, read, rest) =
            >>=-eq-ok (ensure_iavl_prefix prefix min_height) _ checked in
          let (n, same, header) = ensure_iavl_prefix-IavlHeader prefix min_height remaining read in
          let (width, hash) = one_or_34 remaining n hash_op same rest in
          inr (
            elim width [
              | inl one ↦ inl (subst (λ k. IavlHeader prefix min_height k) one header)
              | inr more ↦ inr (subst (λ k. IavlHeader prefix min_height k) more header)
            ],
            hash,
          )
    ],
    λ d. (gate_iff (is_iavl_spec spec) _).1 (elim d [
      | inl other ↦ inl other
      | inr (inl header, hash) ↦ inr (
          rw (
            ensure_iavl_prefix_of_IavlHeader prefix min_height 1 header,
            (eqb_ℤ_iff hash_op (hash_op_i32 sha256)).1 hash,
          ))
      | inr (inr header, hash) ↦ inr (
          rw (
            ensure_iavl_prefix_of_IavlHeader prefix min_height 34 header,
            (eqb_ℤ_iff hash_op (hash_op_i32 sha256)).1 hash,
          ))
    ]),
  )

  -- The prefix of an honest IAVL node passes: a header whose height is at least that of the layer,
  -- with size and version not negative, is read and leaves exactly the bytes behind it.
  pub ensure_iavl_prefix-written :
      (laws : ProstLaws prost) (height size version min_height : ℤ) (rest : Bytes)
      → IsI64 height
      → IsI64 size
      → IsI64 version
      → min_height ≤ℤ height
      → pos 0 ≤ℤ size
      → pos 0 ≤ℤ version
      → ensure_iavl_prefix
          (write_varint height ++ (write_varint size ++ (write_varint version ++ rest)))
          min_height
        ≡ ok (some (length rest))
  ensure_iavl_prefix-written laws height size version min_height rest ih is iv hh hs hv =
      ensure_iavl_prefix_of_IavlHeader _ min_height (length rest) (record {
        height = height;
        size = size;
        version = version;
        after_height = write_varint size ++ (write_varint version ++ rest);
        after_size = write_varint version ++ rest;
        after_version = rest;
        reads_height = read_varint-write_varint laws height _ ih;
        reads_size = read_varint-write_varint laws size _ is;
        reads_version = read_varint-write_varint laws version rest iv;
        height_fits = hh;
        size_fits = hs;
        version_fits = hv;
        remaining_length = refl;
      })
