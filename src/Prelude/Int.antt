-- ===== src/Prelude/Int.antt =====
-- Signed machine integers: i32 and i64 values as integers, with the wrap-around written out, and
-- the casts between them and usize (64 bits).
use Prim.Native.Nat.{ℕ, suc, ◌+◌, ◌-◌, ◌*◌, ◌%◌, ◌^◌, ◌≤◌, ◌<◌}
use mathlib.Core.Path.{◌≡◌}
use mathlib.Core.Logic.{◌↔◌}
use mathlib.Core.Bool.{Bool, true, false}
use native.Mathlib.Omega.{arith}
use ics.Prelude.Tests.{ltb, leb, ◌==◌, if◌then◌else◌}

-- `negsuc n` is -(n + 1).
pub data ℤ : Type 0 where
  pos : ℕ → ℤ
  negsuc : ℕ → ℤ

abbrev pub pos_part : ℤ → ℕ
pos_part (pos n) = n
pos_part (negsuc n) = 0

abbrev pub neg_part : ℤ → ℕ
neg_part (pos n) = 0
neg_part (negsuc n) = suc n

-- a - b, as an integer.
abbrev pub sub_ℕ : ℕ → ℕ → ℤ
sub_ℕ a b = if leb b a then pos (a - b) else negsuc (b - a - 1)

infixl 65 ◌+ℤ◌
infixl 70 ◌*ℤ◌
infix 50 ◌≤ℤ◌ ◌<ℤ◌
unfoldable pub ◌+ℤ◌ : ℤ → ℤ → ℤ
a +ℤ b = sub_ℕ (pos_part a + pos_part b) (neg_part a + neg_part b)

unfoldable pub ◌*ℤ◌ : ℤ → ℤ → ℤ
a *ℤ b =
    sub_ℕ (pos_part a * pos_part b + neg_part a * neg_part b)
      (pos_part a * neg_part b + neg_part a * pos_part b)

abbrev pub ◌≤ℤ◌ : ℤ → ℤ → Type 0
a ≤ℤ b = pos_part a + neg_part b ≤ pos_part b + neg_part a

abbrev pub ◌<ℤ◌ : ℤ → ℤ → Type 0
a <ℤ b = pos_part a + neg_part b < pos_part b + neg_part a

abbrev pub ltb_ℤ : ℤ → ℤ → Bool
ltb_ℤ a b = ltb (pos_part a + neg_part b) (pos_part b + neg_part a)

abbrev pub leb_ℤ : ℤ → ℤ → Bool
leb_ℤ a b = leb (pos_part a + neg_part b) (pos_part b + neg_part a)

abbrev pub eqb_ℤ : ℤ → ℤ → Bool
eqb_ℤ (pos a) (pos b) = a == b
eqb_ℤ (negsuc a) (negsuc b) = a == b
eqb_ℤ _ _ = false

pub eqb_ℤ_iff : (a b : ℤ) → (eqb_ℤ a b ≡ true) ↔ (a ≡ b)
eqb_ℤ_iff (pos a) (pos b) = ground arith
eqb_ℤ_iff (negsuc a) (negsuc b) = ground arith
eqb_ℤ_iff (pos a) (negsuc b) = ground arith
eqb_ℤ_iff (negsuc a) (pos b) = ground arith

-- The integer that the low 32 bits of `a` stand for: what an i32 operation wraps to.
unfoldable pub wrap32 : ℤ → ℤ
wrap32 (pos n) =
    if ltb (n % 2 ^ 32) (2 ^ 31) then pos (n % 2 ^ 32) else negsuc (2 ^ 32 - 1 - n % 2 ^ 32)
wrap32 (negsuc n) =
    if ltb (n % 2 ^ 32) (2 ^ 31) then negsuc (n % 2 ^ 32) else pos (2 ^ 32 - 1 - n % 2 ^ 32)

-- `x as usize` of an i32: sign extension to 64 bits.
unfoldable pub as_usize : ℤ → ℕ
as_usize (pos n) = n % 2 ^ 64
as_usize (negsuc n) = 2 ^ 64 - 1 - n % 2 ^ 64

abbrev pub IsI32 : ℤ → Type 0
IsI32 a = (negsuc (2 ^ 31 - 1) ≤ℤ a) × (a ≤ℤ pos (2 ^ 31 - 1))

abbrev pub IsI64 : ℤ → Type 0
IsI64 a = (negsuc (2 ^ 63 - 1) ≤ℤ a) × (a ≤ℤ pos (2 ^ 63 - 1))

-- A value in range does not wrap.
pub wrap32-eq_of_IsI32 : (a : ℤ) → IsI32 a → wrap32 a ≡ a
unfolding wrap32
wrap32-eq_of_IsI32 (pos n) h = ground arith
wrap32-eq_of_IsI32 (negsuc n) h = ground arith

pub as_usize-pos : (n : ℕ) → n < 2 ^ 64 → as_usize (pos n) ≡ n
unfolding as_usize
as_usize-pos n h = omega arith

-- usize arithmetic wraps at 64 bits.
unfoldable pub usize_add : ℕ → ℕ → ℕ
usize_add a b = (a + b) % 2 ^ 64

unfoldable pub usize_sub : ℕ → ℕ → ℕ
usize_sub a b = (a + 2 ^ 64 - b) % 2 ^ 64

unfoldable pub usize_mul : ℕ → ℕ → ℕ
usize_mul a b = a * b % 2 ^ 64

-- `n as i32` of a usize.
abbrev pub as_i32 : ℕ → ℤ
as_i32 n = wrap32 (pos n)

-- Where nothing overflows the machine operations are those of the natural numbers.
pub +ℤ-pos : (a b : ℕ) → pos a +ℤ pos b ≡ pos (a + b)
unfolding ◌+ℤ◌
+ℤ-pos a b = ground arith

pub *ℤ-pos : (a b : ℕ) → pos a *ℤ pos b ≡ pos (a * b)
unfolding ◌*ℤ◌
*ℤ-pos a b = ground arith

pub wrap32-pos : (n : ℕ) → n < 2 ^ 31 → wrap32 (pos n) ≡ pos n
wrap32-pos n h = wrap32-eq_of_IsI32 (pos n) (omega arith)

pub usize_add-eq : (a b : ℕ) → a + b < 2 ^ 64 → usize_add a b ≡ a + b
unfolding usize_add
usize_add-eq a b h = omega arith

pub usize_sub-eq : (a b : ℕ) → b ≤ a → a < 2 ^ 64 → usize_sub a b ≡ a - b
unfolding usize_sub
usize_sub-eq a b h k = omega arith

pub usize_mul-eq : (a b : ℕ) → a * b < 2 ^ 64 → usize_mul a b ≡ a * b
unfolding usize_mul
usize_mul-eq a b h = omega arith
