-- ===== src/Ops/Codec.antt =====
-- `to_be_bytes` and `to_le_bytes` of the unsigned integers, `width` bytes wide.
use ics.Prelude.{
  ℕ, zero, suc, ◌+◌, ◌*◌, ◌/◌, ◌%◌, ◌^◌, ◌<◌, ◌≡◌, refl, sym, ap, ◌∙◌, [], ◌∷◌, reverse, length,
  length-reverse, arith,
}
use ics.Prelude.Bytes.{Bytes}
use mathlib.Core.List.{reverse-reverse}
use native.Mathlib.Nat.{pow-suc}

unfoldable pub to_le_bytes : ℕ → ℕ → Bytes
to_le_bytes zero n = []
to_le_bytes (suc width) n = n % 256 ∷ to_le_bytes width (n / 256)

unfoldable pub to_be_bytes : ℕ → ℕ → Bytes
unfolding to_le_bytes
to_be_bytes width n = reverse (to_le_bytes width n)

pub length-to_le_bytes : (width n : ℕ) → length (to_le_bytes width n) ≡ width
unfolding to_le_bytes
length-to_le_bytes zero n = refl
length-to_le_bytes (suc width) n = ap suc (length-to_le_bytes width (n / 256))

pub length-to_be_bytes : (width n : ℕ) → length (to_be_bytes width n) ≡ width
unfolding to_be_bytes
length-to_be_bytes width n = length-reverse (to_le_bytes width n) ∙ length-to_le_bytes width n

-- The number that little-endian bytes stand for.
from_le_bytes : Bytes → ℕ
from_le_bytes [] = 0
from_le_bytes (b ∷ bs) = b + 256 * from_le_bytes bs

from_le_bytes-to_le_bytes :
    (width n : ℕ) → n < 256 ^ width → from_le_bytes (to_le_bytes width n) ≡ n
unfolding from_le_bytes to_le_bytes
from_le_bytes-to_le_bytes zero n h = omega arith
from_le_bytes-to_le_bytes (suc width) n h =
    omega (arith, from_le_bytes-to_le_bytes width (n / 256) (omega (arith, pow-suc 256 width)))

pub to_le_bytes_inj :
    (width n m : ℕ)
    → n < 256 ^ width
    → m < 256 ^ width
    → to_le_bytes width n ≡ to_le_bytes width m
    → n ≡ m
to_le_bytes_inj width n m hn hm e =
    sym (from_le_bytes-to_le_bytes width n hn)
    ∙ ap from_le_bytes e
    ∙ from_le_bytes-to_le_bytes width m hm

pub to_be_bytes_inj :
    (width n m : ℕ)
    → n < 256 ^ width
    → m < 256 ^ width
    → to_be_bytes width n ≡ to_be_bytes width m
    → n ≡ m
unfolding to_be_bytes
to_be_bytes_inj width n m hn hm e = to_le_bytes_inj width n m hn hm (
    sym (reverse-reverse (to_le_bytes width n))
    ∙ ap reverse e
    ∙ reverse-reverse (to_le_bytes width m))
