-- ===== src/Prelude/Int.antt =====
-- Go's signed `int` and `int64`, 64 bits wide: an integer, with the wrap-around written out after
-- each operation. The operations on ℤ itself go through the two parts of an integer.
use taipan.Prelude.Tests.{ltb, leb, ◌==◌, if◌then◌else◌}
use Prim.Native.Nat.{ℕ, suc, ◌+◌, ◌-◌, ◌*◌, ◌/◌, ◌%◌, ◌≤◌, ◌<◌}
use mathlib.Core.Path.{◌≡◌}
use mathlib.Core.Bool.{Bool, ◌&&◌}
use native.Mathlib.Omega.{arith}

-- `negsuc n` is -(n + 1).
pub data ℤ : Type 0 where
  pos : ℕ → ℤ
  negsuc : ℕ → ℤ

abbrev pub pos_part : ℤ → ℕ
pos_part (pos n) = n
pos_part (negsuc n) = 0

abbrev pub neg_part : ℤ → ℕ
neg_part (pos n) = 0
neg_part (negsuc n) = suc n

-- a - b, as an integer.
abbrev pub sub_ℕ : ℕ → ℕ → ℤ
sub_ℕ a b = if leb b a then pos (a - b) else negsuc (b - a - 1)

-- -n
abbrev pub neg_ℕ : ℕ → ℤ
neg_ℕ n = sub_ℕ 0 n

infixl 65 ◌+ℤ◌ ◌-ℤ◌
infixl 70 ◌*ℤ◌
infix 50 ◌≤ℤ◌ ◌<ℤ◌
unfoldable pub ◌+ℤ◌ : ℤ → ℤ → ℤ
a +ℤ b = sub_ℕ (pos_part a + pos_part b) (neg_part a + neg_part b)

unfoldable pub ◌-ℤ◌ : ℤ → ℤ → ℤ
a -ℤ b = sub_ℕ (pos_part a + neg_part b) (neg_part a + pos_part b)

unfoldable pub ◌*ℤ◌ : ℤ → ℤ → ℤ
a *ℤ b =
    sub_ℕ (pos_part a * pos_part b + neg_part a * neg_part b)
      (pos_part a * neg_part b + neg_part a * pos_part b)

abbrev pub ◌≤ℤ◌ : ℤ → ℤ → Type 0
a ≤ℤ b = pos_part a + neg_part b ≤ pos_part b + neg_part a

abbrev pub ◌<ℤ◌ : ℤ → ℤ → Type 0
a <ℤ b = pos_part a + neg_part b < pos_part b + neg_part a

abbrev pub ltb_ℤ : ℤ → ℤ → Bool
ltb_ℤ a b = ltb (pos_part a + neg_part b) (pos_part b + neg_part a)

abbrev pub leb_ℤ : ℤ → ℤ → Bool
leb_ℤ a b = leb (pos_part a + neg_part b) (pos_part b + neg_part a)

abbrev pub eqb_ℤ : ℤ → ℤ → Bool
eqb_ℤ a b = (pos_part a == pos_part b) && (neg_part a == neg_part b)

-- Go's `/` on integers: towards zero. Callers deal with the divisor 0 first.
unfoldable pub quot : ℤ → ℤ → ℤ
quot (pos a) (pos b) = pos (a / b)
quot (pos a) (negsuc b) = neg_ℕ (a / suc b)
quot (negsuc a) (pos b) = neg_ℕ (suc a / b)
quot (negsuc a) (negsuc b) = pos (suc a / suc b)

-- The 64-bit two's complement value of an integer.
abbrev pub min_int : ℤ
min_int = negsuc 0x7fff_ffff_ffff_ffff

abbrev pub max_int : ℤ
max_int = pos 0x7fff_ffff_ffff_ffff

abbrev pub InRange : ℤ → Type 0
InRange a = (min_int ≤ℤ a) × (a ≤ℤ max_int)

-- `u` is the value modulo 2^64.
unfoldable pub of_word : ℕ → ℤ
of_word u = if ltb u 0x8000_0000_0000_0000 then pos u else negsuc (0xffff_ffff_ffff_ffff - u)

unfoldable pub wrap : ℤ → ℤ
unfolding of_word
wrap (pos n) = of_word (n % 0x1_0000_0000_0000_0000)
wrap (negsuc n) = of_word (0xffff_ffff_ffff_ffff - n % 0x1_0000_0000_0000_0000)

abbrev pub add64 : ℤ → ℤ → ℤ
add64 a b = wrap (a +ℤ b)

abbrev pub sub64 : ℤ → ℤ → ℤ
sub64 a b = wrap (a -ℤ b)

abbrev pub mul64 : ℤ → ℤ → ℤ
mul64 a b = wrap (a *ℤ b)

-- Lemmas that let `omega` and `ground` work with the operations shut.
pub +ℤ_parts :
    (a b : ℤ)
    → pos_part (a +ℤ b) + neg_part a + neg_part b ≡ neg_part (a +ℤ b) + pos_part a + pos_part b
unfolding ◌+ℤ◌
+ℤ_parts a b = ground arith

pub -ℤ_parts :
    (a b : ℤ)
    → pos_part (a -ℤ b) + neg_part a + pos_part b ≡ neg_part (a -ℤ b) + pos_part a + neg_part b
unfolding ◌-ℤ◌
-ℤ_parts a b = ground arith

pub eq_of_parts : (a b : ℤ) → pos_part a + neg_part b ≡ pos_part b + neg_part a → a ≡ b
eq_of_parts a b h = ground arith

-- A value that fits is not changed.
pub wrap-InRange : (a : ℤ) → InRange a → wrap a ≡ a
unfolding wrap
wrap-InRange (pos n) h = ground arith
wrap-InRange (negsuc n) h = ground arith

-- Operations on natural values that fit.
pub wrap_pos : (n : ℕ) → n < 0x8000_0000_0000_0000 → wrap (pos n) ≡ pos n
wrap_pos n h = wrap-InRange (pos n) (omega arith, omega arith)

pub add64_pos : (a b : ℕ) → a + b < 0x8000_0000_0000_0000 → add64 (pos a) (pos b) ≡ pos (a + b)
unfolding ◌+ℤ◌
add64_pos a b h = ground (arith, wrap_pos (a + b))

pub sub64_pos : (a b : ℕ) → b ≤ a → a < 0x8000_0000_0000_0000 → sub64 (pos a) (pos b) ≡ pos (a - b)
unfolding ◌-ℤ◌
sub64_pos a b h k = ground (arith, wrap_pos (a - b))

pub wrap-neg_ℕ : (n : ℕ) → n < 0x8000_0000_0000_0000 → wrap (neg_ℕ n) ≡ neg_ℕ n
wrap-neg_ℕ n h = wrap-InRange (neg_ℕ n) (ground arith, ground arith)

pub sub64_neg :
    (a b : ℕ) → a ≤ b → b < 0x8000_0000_0000_0000 → sub64 (pos a) (pos b) ≡ neg_ℕ (b - a)
unfolding ◌-ℤ◌
sub64_neg a b h k = ground (arith, wrap-neg_ℕ (b - a))

-- Whatever was computed, the stored value fits.
pub InRange-wrap : (a : ℤ) → InRange (wrap a)
unfolding wrap
InRange-wrap (pos n) = ground arith
InRange-wrap (negsuc n) = ground arith

pub ruleset int_laws = (arith, +ℤ_parts, -ℤ_parts, eq_of_parts)

-- The conversion `int32(a)`.
unfoldable pub of_word32 : ℕ → ℤ
of_word32 u = if ltb u 0x8000_0000 then pos u else negsuc (0xffff_ffff - u)

unfoldable pub wrap32 : ℤ → ℤ
unfolding of_word32
wrap32 (pos n) = of_word32 (n % 0x1_0000_0000)
wrap32 (negsuc n) = of_word32 (0xffff_ffff - n % 0x1_0000_0000)

pub wrap32_pos : (n : ℕ) → n < 0x8000_0000 → wrap32 (pos n) ≡ pos n
unfolding wrap32
wrap32_pos n h = ground arith

pub wrap32_sum : (a b : ℕ) → a + b < 0x8000_0000 → wrap32 (pos a +ℤ pos b) ≡ pos (a + b)
unfolding ◌+ℤ◌
wrap32_sum a b h = ground (arith, wrap32_pos (a + b))
