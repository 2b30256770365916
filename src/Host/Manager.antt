-- ===== src/Host/Manager.antt =====
-- `HostFunctionsManager` of rust/src/host_functions.rs. The hash functions of the sha2, sha3, ripemd,
-- blake2 and blake3 crates are parameters, with the documented lengths of their results.
use ics.Prelude.{ℕ, ◌≡◌, refl, length, ◌==◌, ==_iff, if◌then◌else◌}
use ics.Prelude.Bytes.{Bytes}
use ics.Prelude.Result.{Result, ok, panic}

pub record Crates : Type 0 where
  -- `digest`
  pub sha256_digest : Bytes → Bytes
  pub sha512_digest : Bytes → Bytes
  pub sha512_256_digest : Bytes → Bytes
  pub keccak256_digest : Bytes → Bytes
  pub ripemd160_digest : Bytes → Bytes
  pub blake2b512_digest : Bytes → Bytes
  pub blake2s256_digest : Bytes → Bytes
  -- `blake3::hash`
  pub blake3_hash : Bytes → Bytes

pub record CratesLaws (crates : Crates) : Type 0 where
  pub sha256_length : (text : Bytes) → length (crates.sha256_digest text) ≡ 32
  pub sha512_length : (text : Bytes) → length (crates.sha512_digest text) ≡ 64
  pub sha512_256_length : (text : Bytes) → length (crates.sha512_256_digest text) ≡ 32
  pub keccak256_length : (text : Bytes) → length (crates.keccak256_digest text) ≡ 32
  pub ripemd160_length : (text : Bytes) → length (crates.ripemd160_digest text) ≡ 20
  pub blake2b512_length : (text : Bytes) → length (crates.blake2b512_digest text) ≡ 64
  pub blake2s256_length : (text : Bytes) → length (crates.blake2s256_digest text) ≡ 32
  pub blake3_length : (text : Bytes) → length (crates.blake3_hash text) ≡ 32

-- A buffer of `size` bytes filled from a slice, which panics if the slice has another length.
copy_from_slice : ℕ → Bytes → Result Bytes
copy_from_slice size slice = if length slice == size then ok slice else panic

module _ (crates : Crates) where
  pub sha2_256 : Bytes → Result Bytes
  sha2_256 message = copy_from_slice 32 (crates.sha256_digest message)

  pub sha2_512 : Bytes → Result Bytes
  sha2_512 message = copy_from_slice 64 (crates.sha512_digest message)

  pub sha2_512_truncated : Bytes → Result Bytes
  sha2_512_truncated message = copy_from_slice 32 (crates.sha512_256_digest message)

  pub keccak_256 : Bytes → Result Bytes
  keccak_256 message = copy_from_slice 32 (crates.keccak256_digest message)

  pub ripemd160 : Bytes → Result Bytes
  ripemd160 message = copy_from_slice 20 (crates.ripemd160_digest message)

  pub blake2b_512 : Bytes → Result Bytes
  blake2b_512 message = copy_from_slice 64 (crates.blake2b512_digest message)

  pub blake2s_256 : Bytes → Result Bytes
  blake2s_256 message = copy_from_slice 32 (crates.blake2s256_digest message)

  pub blake3 : Bytes → Result Bytes
  blake3 message = ok (crates.blake3_hash message)

-- A hash function returns on every message, with a hash of `size` bytes.
abbrev pub Yields : (Bytes → Result Bytes) → ℕ → Type 0
Yields hash size = (text : Bytes) → (out : Bytes) × (hash text ≡ ok out) × (length out ≡ size)

copy_from_slice-Yields :
    (digest : Bytes → Bytes) (size : ℕ)
    → ((text : Bytes) → length (digest text) ≡ size)
    → Yields (λ text. copy_from_slice size (digest text)) size
unfolding copy_from_slice
copy_from_slice-Yields digest size long text =
    (digest text, rw ((==_iff (length (digest text)) size).1 (long text)), long text)

-- With crates whose digests have their documented lengths, no function of the manager panics, and each
-- returns an array of the length that the trait asks for.
pub manager_Yields :
    (crates : Crates)
    → CratesLaws crates
    → Yields (sha2_256 crates) 32
      × Yields (sha2_512 crates) 64
      × Yields (sha2_512_truncated crates) 32
      × Yields (keccak_256 crates) 32
      × Yields (ripemd160 crates) 20
      × Yields (blake2b_512 crates) 64
      × Yields (blake2s_256 crates) 32
      × Yields (blake3 crates) 32
unfolding sha2_256 sha2_512 sha2_512_truncated keccak_256 ripemd160 blake2b_512 blake2s_256 blake3
manager_Yields crates laws = (
  copy_from_slice-Yields crates.sha256_digest 32 laws.sha256_length,
  copy_from_slice-Yields crates.sha512_digest 64 laws.sha512_length,
  copy_from_slice-Yields crates.sha512_256_digest 32 laws.sha512_256_length,
  copy_from_slice-Yields crates.keccak256_digest 32 laws.keccak256_length,
  copy_from_slice-Yields crates.ripemd160_digest 20 laws.ripemd160_length,
  copy_from_slice-Yields crates.blake2b512_digest 64 laws.blake2b512_length,
  copy_from_slice-Yields crates.blake2s256_digest 32 laws.blake2s256_length,
  λ text. (crates.blake3_hash text, refl, laws.blake3_length text),
)
