-- ===== src/Tests.antt =====
-- A prost crate and a host for the examples. The varints are those of the wire format; a message is
-- written by its fields, and a hash is 32 bytes long.
pub mod Indices
pub mod Samples
pub mod Runs
pub mod Paths
pub mod Batches
pub mod Existence
pub mod Absence
pub mod Leaves
pub mod Messages
pub mod Trees
use ics.Prelude.{
  ℕ, zero, suc, ◌+◌, ◌-◌, ◌*◌, ◌/◌, ◌%◌, ◌^◌, ◌<◌, ◌≡◌, refl, sym, ap, ◌∙◌, Bool, true, false,
  Option, none, some, List, [], ◌∷◌, ◌++◌, length, replicate, ltb, if◌then◌else◌, arith, Bool-cases,
  append_inj, ◌⊎◌, inl, inr,
}
use ics.Prelude.Bytes.{Bytes}
use ics.Prelude.Int.{ℤ, pos, negsuc, eqb_ℤ, eqb_ℤ_iff}
use ics.Proto.Enums.{
  HashOp, no_hash, sha256, sha512, keccak256, ripemd160, bitcoin, sha512_256, blake2b_512,
  blake2s_256, blake3, LengthOp, no_prefix, var_proto, var_rlp, fixed32_big, fixed32_little,
  fixed64_big, fixed64_little, require_32_bytes, require_64_bytes, hash_op_i32, length_op_i32,
}
use ics.Proto.Types.{InnerOp}
use ics.Proto.Prost.{Prost, ProstLaws}
use ics.Host.{HostFunctionsProvider}
use mathlib.Core.Option

-- A varint of at most `fuel + 1` bytes.
unfoldable write : ℕ → ℕ → Bytes
write zero n = n ∷ []
write (suc fuel) n = if ltb n 128 then n ∷ [] else (n % 128 + 128) ∷ write fuel (n / 128)

abbrev higher : ℕ → Option (ℕ × Bytes) → Option (ℕ × Bytes)
higher low none = none
higher low (some (high, rest)) = some (low + 128 * high, rest)

unfoldable read : Bytes → Option (ℕ × Bytes)
read [] = none
read (b ∷ buf) = if ltb b 128 then some (b, buf) else higher (b - 128) (read buf)

abbrev bound : ℕ → ℕ
bound zero = 128
bound (suc fuel) = 128 * bound fuel

read-write :
    (fuel n : ℕ) (rest : Bytes) → n < bound fuel → read (write fuel n ++ rest) ≡ some (n, rest)
unfolding read write
read-write zero n rest h = ground arith
read-write (suc fuel) n rest h = elim (Bool-cases (ltb n 128)) [
  | inl small ↦ ground arith
  | inr large ↦ ground (arith, read-write fuel (n / 128) rest (omega arith))
]

-- What does not fit 64 bits is not read.
abbrev in_64_bits : Option (ℕ × Bytes) → Option (ℕ × Bytes)
in_64_bits none = none
in_64_bits (some (n, rest)) = if ltb n (2 ^ 64) then some (n, rest) else none

unfoldable try_hash_op : ℤ → Option HashOp
try_hash_op x =
    if eqb_ℤ x (hash_op_i32 no_hash)
    then some no_hash
    else if eqb_ℤ x (hash_op_i32 sha256)
    then some sha256
    else if eqb_ℤ x (hash_op_i32 sha512)
    then some sha512
    else if eqb_ℤ x (hash_op_i32 keccak256)
    then some keccak256
    else if eqb_ℤ x (hash_op_i32 ripemd160)
    then some ripemd160
    else if eqb_ℤ x (hash_op_i32 bitcoin)
    then some bitcoin
    else if eqb_ℤ x (hash_op_i32 sha512_256)
    then some sha512_256
    else if eqb_ℤ x (hash_op_i32 blake2b_512)
    then some blake2b_512
    else if eqb_ℤ x (hash_op_i32 blake2s_256)
    then some blake2s_256
    else if eqb_ℤ x (hash_op_i32 blake3)
    then some blake3
    else none

try_hash_op_back : (op : HashOp) → try_hash_op (hash_op_i32 op) ≡ some op
unfolding try_hash_op
try_hash_op_back no_hash = refl
try_hash_op_back sha256 = refl
try_hash_op_back sha512 = refl
try_hash_op_back keccak256 = refl
try_hash_op_back ripemd160 = refl
try_hash_op_back bitcoin = refl
try_hash_op_back sha512_256 = refl
try_hash_op_back blake2b_512 = refl
try_hash_op_back blake2s_256 = refl
try_hash_op_back blake3 = refl

unfoldable try_length_op : ℤ → Option LengthOp
try_length_op x =
    if eqb_ℤ x (length_op_i32 no_prefix)
    then some no_prefix
    else if eqb_ℤ x (length_op_i32 var_proto)
    then some var_proto
    else if eqb_ℤ x (length_op_i32 var_rlp)
    then some var_rlp
    else if eqb_ℤ x (length_op_i32 fixed32_big)
    then some fixed32_big
    else if eqb_ℤ x (length_op_i32 fixed32_little)
    then some fixed32_little
    else if eqb_ℤ x (length_op_i32 fixed64_big)
    then some fixed64_big
    else if eqb_ℤ x (length_op_i32 fixed64_little)
    then some fixed64_little
    else if eqb_ℤ x (length_op_i32 require_32_bytes)
    then some require_32_bytes
    else if eqb_ℤ x (length_op_i32 require_64_bytes)
    then some require_64_bytes
    else none

try_length_op_back : (op : LengthOp) → try_length_op (length_op_i32 op) ≡ some op
unfolding try_length_op
try_length_op_back no_prefix = refl
try_length_op_back var_proto = refl
try_length_op_back var_rlp = refl
try_length_op_back fixed32_big = refl
try_length_op_back fixed32_little = refl
try_length_op_back fixed64_big = refl
try_length_op_back fixed64_little = refl
try_length_op_back require_32_bytes = refl
try_length_op_back require_64_bytes = refl

arm :
    {T : Type 0} (number : T → ℤ) (x : ℤ) (op : T) {rest : Option T} {out : T}
    → (rest ≡ some out → x ≡ number out)
    → (if eqb_ℤ x (number op) then some op else rest) ≡ some out
    → x ≡ number out
arm number x op {rest} {out} further e = elim (Bool-cases (eqb_ℤ x (number op))) [
  | inl same ↦ let is_out : op ≡ out = cc in (eqb_ℤ_iff x (number op)).0 same ∙ ap number is_out
  | inr differ ↦ further (sym (ap (λ b. if b then some op else rest) differ) ∙ e)
]

try_hash_op_sound : (x : ℤ) (op : HashOp) → try_hash_op x ≡ some op → x ≡ hash_op_i32 op
unfolding try_hash_op
try_hash_op_sound x op = arm hash_op_i32 x no_hash (
    arm hash_op_i32 x sha256 (
      arm hash_op_i32 x sha512 (
        arm hash_op_i32 x keccak256 (
          arm hash_op_i32 x ripemd160 (
            arm hash_op_i32 x bitcoin (
              arm hash_op_i32 x sha512_256 (
                arm hash_op_i32 x blake2b_512 (
                  arm hash_op_i32 x blake2s_256
                    (arm hash_op_i32 x blake3 (λ e. absurd (cc)))))))))))

try_length_op_sound : (x : ℤ) (op : LengthOp) → try_length_op x ≡ some op → x ≡ length_op_i32 op
unfolding try_length_op
try_length_op_sound x op = arm length_op_i32 x no_prefix (
    arm length_op_i32 x var_proto (
      arm length_op_i32 x var_rlp (
        arm length_op_i32 x fixed32_big (
          arm length_op_i32 x fixed32_little (
            arm length_op_i32 x fixed64_big (
              arm length_op_i32 x fixed64_little (
                arm length_op_i32 x require_32_bytes
                  (arm length_op_i32 x require_64_bytes (λ e. absurd (cc))))))))))

-- An integer as the field of a message: zigzag, so that both signs are taken.
abbrev natural : ℤ → ℕ
natural (pos n) = 2 * n
natural (negsuc n) = 2 * n + 1

natural_inj : (a b : ℤ) → natural a ≡ natural b → a ≡ b
natural_inj (pos a) (pos b) e = ap pos (omega arith)
natural_inj (negsuc a) (negsuc b) e = ap negsuc (omega arith)
natural_inj (pos a) (negsuc b) e = absurd (omega arith)
natural_inj (negsuc a) (pos b) e = absurd (omega arith)

abbrev fields : InnerOp → Bytes
fields op = natural op.hash ∷ length op.prefix ∷ op.prefix ++ op.suffix

fields_inj : (a b : InnerOp) → fields a ≡ fields b → a ≡ b
fields_inj a b e =
    let hash : natural a.hash ≡ natural b.hash = cc in
    let size : length a.prefix ≡ length b.prefix = cc in
    let rest : a.prefix ++ a.suffix ≡ b.prefix ++ b.suffix = cc in
    let (prefix, suffix) = append_inj a.prefix a.suffix b.prefix b.suffix size rest in
    λ i. record { hash = natural_inj a.hash b.hash hash i; prefix = prefix i; suffix = suffix i }

instance unfoldable pub sample_prost : Prost
unfolding try_hash_op try_length_op read write
sample_prost = record {
  hash_op = λ x. Option.get_or (try_hash_op x) no_hash;
  length_op = λ x. Option.get_or (try_length_op x) no_prefix;
  try_hash_op = try_hash_op;
  try_length_op = try_length_op;
  encode_varint = write 9;
  decode_varint = λ buf. in_64_bits (read buf);
  encode_to_vec = fields;
}

pub sample_laws : ProstLaws sample_prost
unfolding sample_prost try_hash_op
sample_laws = record {
  hash_op_of_i32 = λ op. ap (λ o. Option.get_or o no_hash) (try_hash_op_back op);
  length_op_of_i32 = λ op. ap (λ o. Option.get_or o no_prefix) (try_length_op_back op);
  try_hash_op_of_i32 = try_hash_op_back;
  try_length_op_of_i32 = try_length_op_back;
  try_hash_op-eq_some = try_hash_op_sound;
  try_length_op-eq_some = try_length_op_sound;
  decode-encode = λ n rest h. ap in_64_bits (read-write 9 n rest (omega arith)) ∙ ground arith;
  encode_to_vec-inj = fields_inj;
}

-- A number told from a text, and so small that it is a byte.
unfoldable pub checksum : Bytes → ℕ
checksum [] = 7
checksum (b ∷ text) = (checksum text * 31 + b + 1) % 251

abbrev pub digest : ℕ → ℕ → Bytes → Bytes
digest kind size text = kind ∷ replicate (size - 2) 0 ++ checksum text ∷ []

instance unfoldable pub sample_host : HostFunctionsProvider
unfolding checksum
sample_host = record {
  sha2_256 = digest 1 32;
  sha2_512 = digest 2 64;
  sha2_512_truncated = digest 3 32;
  keccak_256 = digest 4 32;
  ripemd160 = digest 5 20;
  blake2b_512 = digest 6 64;
  blake2s_256 = digest 7 32;
  blake3 = digest 8 32;
}
