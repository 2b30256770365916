-- ===== src/Tests/Messages.antt =====
-- A text form for bytes and examples for serialized messages.
use Prim.Native.Char.{code}
use Prim.Native.String.{String}
use ics.Prelude.{
  ℕ, zero, suc, ◌+◌, ◌≡◌, refl, ap, ◌∙◌, Option, none, some, [], ◌∷◌, ◌==◌, if◌then◌else◌, arith,
}
use ics.Prelude.Bytes.{Bytes}
use ics.Prelude.Int.{ℤ, pos, negsuc}
use ics.Proto.Enums.{no_hash, sha256, var_proto}
use ics.Proto.Types.{InnerOp}
use ics.Serde.Values.{int64, uint64, number_value, Value, string}
use ics.Serde.Enums.{and_then}
use ics.Serde.Fields.{Pbjson, PbjsonLaws}
use ics.Api.Specs.{tendermint_leaf, tendermint_spec}
use ics.Proto.Types.{ProofSpec, CommitmentProof, nonexist}
use ics.Serde.Specs.{serialize_proof_spec, deserialize_proof_spec}
use ics.Serde.Specs.RoundTrip.{deserialize-serialize_proof_spec}
use ics.Serde.Proofs.RoundTrip.{IsLeafOp}
use ics.Serde.Commitments.{serialize_commitment_proof, deserialize_commitment_proof}
use ics.Serde.Commitments.RoundTrip.{deserialize-serialize_commitment_proof}
use ics.Tests.Samples.{absent_4}
use ics.Tests.{sample_prost, sample_laws}

-- A byte as so many letters a, ended by a b.
unfoldable unary : ℕ → String → String
unary zero rest = String.◌∷◌ "b" rest
unary (suc n) rest = String.◌∷◌ "a" (unary n rest)

unfoldable letters : Bytes → String
letters [] = String.[]
letters (b ∷ bytes) = unary b (letters bytes)

unfoldable numbers : ℕ → String → Bytes
numbers k String.[] = []
numbers k (String.◌∷◌ c text) =
    let more = numbers (suc k) text in
    let next = numbers 0 text in if code c == 97 then more else k ∷ next

numbers-unary : (k n : ℕ) (rest : String) → numbers k (unary n rest) ≡ (k + n) ∷ numbers 0 rest
unfolding numbers unary
numbers-unary k zero rest = ap (λ m. m ∷ numbers 0 rest) (omega arith)
numbers-unary k (suc n) rest =
    numbers-unary (suc k) n rest ∙ ap (λ m. m ∷ numbers 0 rest) (omega arith)

numbers-letters : (bytes : Bytes) → numbers 0 (letters bytes) ≡ bytes
unfolding letters numbers
numbers-letters [] = refl
numbers-letters (b ∷ bytes) =
    numbers-unary 0 b (letters bytes)
    ∙ ap (λ m. m ∷ numbers 0 (letters bytes)) (omega arith)
    ∙ ap (λ rest. b ∷ rest) (numbers-letters bytes)

abbrev bytes_of_value : Value → Option Bytes
bytes_of_value (string text) = some (numbers 0 text)
bytes_of_value _ = none

abbrev number_of_value : Value → Option ℤ
number_of_value (int64 x) = some x
number_of_value (uint64 n) = some (pos n)
number_of_value _ = none

number_of-value_back : (x : ℤ) → number_of_value (number_value x) ≡ some x
number_of-value_back (pos n) = refl
number_of-value_back (negsuc n) = refl

instance unfoldable sample_pbjson : Pbjson
sample_pbjson = record { encode = letters; bytes_of = bytes_of_value; number_of = number_of_value }

sample_pbjson_laws : PbjsonLaws sample_pbjson
unfolding sample_pbjson
sample_pbjson_laws = record {
  bytes_of-encode = λ bytes. ap some (numbers-letters bytes);
  number_of-value = λ x h. number_of-value_back x;
}

abbrev sample_inner : InnerOp
sample_inner = record { hash = pos 2; prefix = 1 ∷ 0 ∷ 3 ∷ []; suffix = [] }

abbrev shallow_spec : ProofSpec
shallow_spec = record tendermint_spec { min_depth = pos 1; max_depth = pos 64 }

tendermint_leaf-IsLeafOp : IsLeafOp tendermint_leaf
tendermint_leaf-IsLeafOp = record {
  hash = (sha256, refl);
  prehash_key = (no_hash, refl);
  prehash_value = (sha256, refl);
  length = (var_proto, refl);
}

deserialize-serialize_proof_spec_example :
    and_then (serialize_proof_spec shallow_spec) deserialize_proof_spec ≡ some shallow_spec
deserialize-serialize_proof_spec_example =
    deserialize-serialize_proof_spec sample_laws sample_pbjson_laws shallow_spec (record {
      leaf_spec = tendermint_leaf-IsLeafOp;
      inner_spec = record {
        child_order = ((omega arith, omega arith), ((omega arith, omega arith), tt));
        child_size = (omega arith, omega arith);
        min_prefix_length = (omega arith, omega arith);
        max_prefix_length = (omega arith, omega arith);
        hash = (sha256, refl);
      };
      max_depth = (omega arith, omega arith);
      min_depth = (omega arith, omega arith);
    })

abbrev sample_commitment : CommitmentProof
sample_commitment = record { proof = some (nonexist absent_4) }

deserialize-serialize_commitment_proof_example :
    and_then (serialize_commitment_proof sample_commitment) deserialize_commitment_proof
    ≡ some sample_commitment
deserialize-serialize_commitment_proof_example =
    deserialize-serialize_commitment_proof sample_laws sample_pbjson_laws sample_commitment
      (record {
        left = record {
          leaf = tendermint_leaf-IsLeafOp;
          path = ((sha256, refl), ((sha256, refl), tt));
        };
        right = record {
          leaf = tendermint_leaf-IsLeafOp;
          path = ((sha256, refl), ((sha256, refl), tt));
        };
      })
