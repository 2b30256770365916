-- ===== src/Ops/Framing.antt =====
-- `do_length` of rust/src/ops.rs: what it accepts, and what it writes in front of the data.
use ics.Prelude.{
  ℕ, ◌%◌, ◌^◌, ◌<◌, ◌≡◌, refl, sym, ap, ◌∙◌, ◌⊎◌, inl, inr, ◌++◌, Option, some, length, append_inj,
  ==_iff, ◌==◌, arith, Bool-cases,
}
use ics.Prelude.Bytes.{Bytes}
use ics.Prelude.Result.{ok, err, ok_inj, ◌>>◌, ensure, Error, invalid_length, unsupported_length_op}
use ics.Proto.Enums.{
  LengthOp, no_prefix, var_proto, var_rlp, fixed32_big, fixed32_little, fixed64_big, fixed64_little,
  require_32_bytes, require_64_bytes,
}
use ics.Proto.Prost.{Prost, ProstLaws}
use ics.Ops.{do_length}
use ics.Ops.Codec.{
  to_be_bytes, to_le_bytes, length-to_be_bytes, length-to_le_bytes, to_be_bytes_inj,
  to_le_bytes_inj,
}
use mathlib.Core.List.{append_assoc}

-- The operations whose output tells where the item ends.
abbrev pub IsFraming : LengthOp → Type 0
IsFraming no_prefix = ⊥
IsFraming _ = Unit {0}

-- Lengths that the header of an operation can hold.
abbrev pub max_length : LengthOp → ℕ
max_length fixed32_big = 2 ^ 32
max_length fixed32_little = 2 ^ 32
max_length _ = 2 ^ 64

-- The data that an operation takes as it is or refuses for its length.
abbrev pub Accepts : LengthOp → Bytes → Type 0
Accepts var_rlp message = ⊥
Accepts require_32_bytes message = length message ≡ 32
Accepts require_64_bytes message = length message ≡ 64
Accepts _ message = Unit {0}

require-eq-ok :
    (n : ℕ) (e : Error) (message : Bytes) {out : Bytes}
    → (ensure (length message == n) e >> ok message) ≡ ok out
    → (length message ≡ n) × (message ≡ out)
require-eq-ok n e message h = ground (arith, ==_iff (length message) n)

module _ ⦃prost : Prost⦄ where
  -- `do_length` succeeds exactly on the data that its operation accepts; it has no other error than
  -- a wrong length or an unsupported operation, and never panics.
  pub do_length_outcome :
      (op : LengthOp) (message : Bytes)
      → (Accepts op message × ((out : Bytes) × (do_length op message ≡ ok out)))
        ⊎ (¬ Accepts op message
            × ((do_length op message ≡ err invalid_length)
                ⊎ (do_length op message ≡ err unsupported_length_op)))
  unfolding do_length
  do_length_outcome no_prefix message = inl (tt, (message, refl))
  do_length_outcome require_32_bytes message = elim (Bool-cases (length message == 32)) [
    | inl e ↦ inl ((==_iff _ _).0 e, (message, rw e))
    | inr e ↦ inr (ground arith, inl (rw e))
  ]
  do_length_outcome require_64_bytes message = elim (Bool-cases (length message == 64)) [
    | inl e ↦ inl ((==_iff _ _).0 e, (message, rw e))
    | inr e ↦ inr (ground arith, inl (rw e))
  ]
  do_length_outcome var_proto message = inl (tt, (_, refl))
  do_length_outcome fixed32_big message = inl (tt, (_, refl))
  do_length_outcome fixed32_little message = inl (tt, (_, refl))
  do_length_outcome fixed64_big message = inl (tt, (_, refl))
  do_length_outcome fixed64_little message = inl (tt, (_, refl))
  do_length_outcome var_rlp message = inr (λ h. h, inr refl)

  -- A header of fixed width that determines the length frames the item.
  framed :
      (header : ℕ → Bytes) (width bound : ℕ) (a b r s : Bytes)
      → ((n : ℕ) → length (header n) ≡ width)
      → ((n m : ℕ) → n < bound → m < bound → header n ≡ header m → n ≡ m)
      → length a < bound
      → length b < bound
      → (header (length a) ++ a) ++ r ≡ (header (length b) ++ b) ++ s
      → (a ≡ b) × (r ≡ s)
  framed header width bound a b r s fixed inj ha hb e =
      let e' : header (length a) ++ (a ++ r) ≡ header (length b) ++ (b ++ s) =
        sym (append_assoc (header (length a)) a r) ∙ e ∙ append_assoc (header (length b)) b s in
      let (same, rest) =
        append_inj (header (length a)) (a ++ r) (header (length b)) (b ++ s)
          (fixed (length a) ∙ sym (fixed (length b))) e' in
      append_inj a r b s (inj (length a) (length b) ha hb same) rest

  module _ (laws : ProstLaws prost) where
    var_proto_framed :
        (a b r s : Bytes)
        → length a < 2 ^ 64
        → length b < 2 ^ 64
        → (prost.encode_varint (length a) ++ a) ++ r ≡ (prost.encode_varint (length b) ++ b) ++ s
        → (a ≡ b) × (r ≡ s)
    var_proto_framed a b r s ha hb e =
        let e' : prost.encode_varint (length a) ++ (a ++ r)
            ≡ prost.encode_varint (length b) ++ (b ++ s) =
          sym (append_assoc (prost.encode_varint (length a)) a r)
          ∙ e
          ∙ append_assoc (prost.encode_varint (length b)) b s in
        let read : ◌≡◌ {A = Option (ℕ × Bytes)} (some (length a, a ++ r))
            (some (length b, b ++ s)) =
          sym (laws.decode-encode (length a) (a ++ r) ha)
          ∙ ap prost.decode_varint e'
          ∙ laws.decode-encode (length b) (b ++ s) hb in
        append_inj a r b s (cc) (cc)

    -- For an operation that frames (every one but no prefix and the unsupported RLP), and items shorter
    -- than its header can count (2 ^ 32 bytes for the 32-bit headers, 2 ^ 64 for the others), a framed item
    -- can be told from what follows it: if two texts that begin with such items, framed, are equal, the
    -- items are equal and so are the texts behind them.
    pub do_length_framing :
        (op : LengthOp) (a b out out' r s : Bytes)
        → IsFraming op
        → length a < max_length op
        → length b < max_length op
        → do_length op a ≡ ok out
        → do_length op b ≡ ok out'
        → out ++ r ≡ out' ++ s
        → (a ≡ b) × (r ≡ s)
    unfolding do_length
    do_length_framing no_prefix a b out out' r s f ha hb p q e = absurd f
    do_length_framing var_rlp a b out out' r s f ha hb p q e = cc
    do_length_framing require_32_bytes a b out out' r s f ha hb p q e =
        let (la, ea) = require-eq-ok 32 invalid_length a p in
        let (lb, eb) = require-eq-ok 32 invalid_length b q in
        append_inj a r b s (la ∙ sym lb) (rw (ea, eb) e)
    do_length_framing require_64_bytes a b out out' r s f ha hb p q e =
        let (la, ea) = require-eq-ok 64 invalid_length a p in
        let (lb, eb) = require-eq-ok 64 invalid_length b q in
        append_inj a r b s (la ∙ sym lb) (rw (ea, eb) e)
    do_length_framing var_proto a b out out' r s f ha hb p q e =
        var_proto_framed a b r s ha hb (rw (ok_inj p, ok_inj q) e)
    do_length_framing fixed32_big a b out out' r s f ha hb p q e =
        framed (λ n. to_be_bytes 4 (n % 2 ^ 32)) 4 (2 ^ 32) a b r s (λ n. length-to_be_bytes 4 _)
          (λ n m hn hm x.
            omega
              (arith, to_be_bytes_inj 4 (n % 2 ^ 32) (m % 2 ^ 32) (omega arith) (omega arith) x))
          ha hb (rw (ok_inj p, ok_inj q) e)
    do_length_framing fixed32_little a b out out' r s f ha hb p q e =
        framed (λ n. to_le_bytes 4 (n % 2 ^ 32)) 4 (2 ^ 32) a b r s (λ n. length-to_le_bytes 4 _)
          (λ n m hn hm x.
            omega
              (arith, to_le_bytes_inj 4 (n % 2 ^ 32) (m % 2 ^ 32) (omega arith) (omega arith) x))
          ha hb (rw (ok_inj p, ok_inj q) e)
    do_length_framing fixed64_big a b out out' r s f ha hb p q e =
        framed (λ n. to_be_bytes 8 (n % 2 ^ 64)) 8 (2 ^ 64) a b r s (λ n. length-to_be_bytes 8 _)
          (λ n m hn hm x.
            omega
              (arith, to_be_bytes_inj 8 (n % 2 ^ 64) (m % 2 ^ 64) (omega arith) (omega arith) x))
          ha hb (rw (ok_inj p, ok_inj q) e)
    do_length_framing fixed64_little a b out out' r s f ha hb p q e =
        framed (λ n. to_le_bytes 8 (n % 2 ^ 64)) 8 (2 ^ 64) a b r s (λ n. length-to_le_bytes 8 _)
          (λ n m hn hm x.
            omega
              (arith, to_le_bytes_inj 8 (n % 2 ^ 64) (m % 2 ^ 64) (omega arith) (omega arith) x))
          ha hb (rw (ok_inj p, ok_inj q) e)
