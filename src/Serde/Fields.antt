-- ===== src/Serde/Fields.antt =====
-- The fields of a serialized struct in rust/src/cosmos.ics23.v1.serde.rs, and what the code calls of
-- the pbjson crate for bytes: a parameter.
use Prim.Native.String.{String}
use ics.Prelude.{
  ◌≡◌, refl, sym, inl, inr, Bool-cases, Option, none, some, [], ◌∷◌, if◌then◌else◌, is_empty,
}
use ics.Prelude.Bytes.{Bytes}
use ics.Prelude.Int.{ℤ, IsI32, pos, eqb_ℤ, eqb_ℤ_iff}
use ics.Proto.Prost.{Prost}
use ics.Serde.Values.{Value, Fields, string, number_value}
use ics.Serde.Enums.{serialize_hash_op, serialize_length_op}
use mathlib.Core.Option

pub record Pbjson : Type 0 where
  -- `base64::encode`
  pub encode : Bytes → String
  -- `BytesDeserialize`
  pub bytes_of : Value → Option Bytes
  -- `NumberDeserialize<i32>`
  pub number_of : Value → Option ℤ

pub record PbjsonLaws (pbjson : Pbjson) : Type 0 where
  -- encoded bytes are read back
  pub bytes_of-encode :
      (bytes : Bytes) → pbjson.bytes_of (string (pbjson.encode bytes)) ≡ some bytes
  -- an i32 is read back
  pub number_of-value : (x : ℤ) → IsI32 x → pbjson.number_of (number_value x) ≡ some x

-- A bytes field, which is left out if it is empty.
abbrev pub bytes_field : ⦃pbjson : Pbjson⦄ → String → Bytes → Fields
bytes_field ⦃pbjson⦄ name bytes =
    if is_empty bytes then [] else (name, string (pbjson.encode bytes)) ∷ []

-- A field of type `HashOp`, which is left out if it is 0; `none` if it is no variant.
abbrev pub hash_field : ⦃prost : Prost⦄ → String → ℤ → Option Fields
hash_field ⦃prost⦄ name hash =
    if eqb_ℤ hash (pos 0)
    then some []
    else Option.map (λ v. (name, string (serialize_hash_op v)) ∷ []) (prost.try_hash_op hash)

abbrev pub length_field : ⦃prost : Prost⦄ → String → ℤ → Option Fields
length_field ⦃prost⦄ name length =
    if eqb_ℤ length (pos 0)
    then some []
    else Option.map (λ v. (name, string (serialize_length_op v)) ∷ []) (prost.try_length_op length)

-- `Some(value)` for a field that is not there yet; a second one is an error.
abbrev pub once {ℓ κ} : {A : Type ℓ} {B : Type κ} → Option A → Option B → Option B
once none value = value
once (some _) value = none

-- What is known of a field after it was read, if it was written: 0 and no bytes are left out.
abbrev pub kept_bytes : Bytes → Option Bytes
kept_bytes bytes = if is_empty bytes then none else some bytes

abbrev pub kept_enum : ℤ → Option ℤ
kept_enum x = if eqb_ℤ x (pos 0) then none else some x

pub get_or-kept_bytes : (bytes : Bytes) → Option.get_or (kept_bytes bytes) [] ≡ bytes
get_or-kept_bytes [] = refl
get_or-kept_bytes (b ∷ bytes) = refl

pub get_or-kept_enum : (x : ℤ) → Option.get_or (kept_enum x) (pos 0) ≡ x
get_or-kept_enum x = elim (Bool-cases (eqb_ℤ x (pos 0))) [
  | inl unset ↦ rw unset (sym ((eqb_ℤ_iff x (pos 0)).0 unset))
  | inr set ↦ rw set
]
