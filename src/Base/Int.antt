-- ===== src/Base/Int.antt =====
-- Go's `int` (64 bits) as an integer, with the comparisons and the bit mask in use; `wrap64` is what 64 bits
-- keep of a result.
-- `negsuc n` is -(n + 1), which is the complement of the bits of `n`.
use Prim.Native.Nat.{ℕ, suc, ◌+◌, ◌-◌, ◌%◌, ◌^◌, ◌*◌, ◌/◌, ◌≤◌, ◌<◌, bit_and}
use mathlib.Core.Path.{◌≡◌, refl}
use mathlib.Core.Logic.{◌↔◌}
use mathlib.Core.Bool.{Bool, true, not}
use native.Mathlib.Omega.{arith}
use smartmontools_go.Base.Tests.{ltb, leb, eqb, if◌then◌else◌}

pub data ℤ : Type 0 where
  pos : ℕ → ℤ
  negsuc : ℕ → ℤ

abbrev pub pos_part : ℤ → ℕ
pos_part (pos n) = n
pos_part (negsuc n) = 0

abbrev pub neg_part : ℤ → ℕ
neg_part (pos n) = 0
neg_part (negsuc n) = suc n

-- a - b of two numbers, as an integer
abbrev pub sub_ℕ : ℕ → ℕ → ℤ
sub_ℕ a b = if leb b a then pos (a - b) else negsuc (b - a - 1)

infixl 65 ◌-ℤ◌
unfoldable pub ◌-ℤ◌ : ℤ → ℤ → ℤ
a -ℤ b = sub_ℕ (pos_part a + neg_part b) (neg_part a + pos_part b)

-- What a 64-bit `int` holds of an integer, in two's complement.
unfoldable pub wrap64 : ℤ → ℤ
wrap64 (pos n) = let r = n % 2 ^ 64 in if ltb r (2 ^ 63) then pos r else negsuc (2 ^ 64 - r - 1)
wrap64 (negsuc n) = let r = n % 2 ^ 64 in if ltb r (2 ^ 63) then negsuc r else pos (2 ^ 64 - r - 1)

-- a / b, rounded towards 0
unfoldable pub quot : ℤ → ℤ → ℤ
quot (pos a) (pos b) = pos (a / b)
quot (pos a) (negsuc b) = sub_ℕ 0 (a / suc b)
quot (negsuc a) (pos b) = sub_ℕ 0 (suc a / b)
quot (negsuc a) (negsuc b) = pos (suc a / suc b)

infix 50 ◌≤ℤ◌
abbrev pub ◌≤ℤ◌ : ℤ → ℤ → Type 0
a ≤ℤ b = pos_part a + neg_part b ≤ pos_part b + neg_part a

unfoldable pub ltbℤ : ℤ → ℤ → Bool
ltbℤ a b = ltb (pos_part a + neg_part b) (pos_part b + neg_part a)

unfoldable pub lebℤ : ℤ → ℤ → Bool
lebℤ a b = leb (pos_part a + neg_part b) (pos_part b + neg_part a)

unfoldable pub eqbℤ : ℤ → ℤ → Bool
eqbℤ a b = eqb (pos_part a + neg_part b) (pos_part b + neg_part a)

-- c & m for a mask m ≥ 0, in two's complement
unfoldable pub and_mask : ℤ → ℕ → ℕ
and_mask (pos n) m = bit_and n m
and_mask (negsuc n) m = m - bit_and n m

-- c & m != 0
unfoldable pub has_bits : ℤ → ℕ → Bool
unfolding and_mask
has_bits c m = not (eqb (and_mask c m) 0)

pub lebℤ_iff : (a b : ℤ) → (lebℤ a b ≡ true) ↔ (a ≤ℤ b)
unfolding lebℤ
lebℤ_iff a b = ground arith

pub eqbℤ_iff : (a b : ℤ) → (eqbℤ a b ≡ true) ↔ (a ≡ b)
unfolding eqbℤ
eqbℤ_iff a b = ground arith

-- a number that fits stays as it is
pub wrap64_small : (n : ℕ) → n < 2 ^ 63 → wrap64 (pos n) ≡ pos n
unfolding wrap64
wrap64_small n h = ground arith

wrap64_least : wrap64 (pos (2 ^ 63 + 100)) ≡ negsuc (2 ^ 63 - 101)
unfolding wrap64
wrap64_least = refl

wrap64_quarter : wrap64 (pos (2 ^ 62 * 60)) ≡ pos 0
unfolding wrap64
wrap64_quarter = refl
