-- ===== src/Integers.antt =====
-- py/int.go and py/bigint.go: Python's integers. A value that fits in 64 bits is an Int, any other
-- a BigInt, whose arithmetic is that of Go's math/big: an integer. Operands of other types are
-- `other`.
pub mod Machine
pub mod Add
pub mod Multiply
pub mod Divide
pub mod Quotient
pub mod Operators
pub mod Refine
pub mod Parts
mod Tests
use taipan.Prelude.{
  Bool, true, false, ◌&&◌, Option, none, some, if◌then◌else◌, ◌≡◌, refl, Bool-cases, arith, inl,
  inr,
}
use taipan.Prelude.Int.{ℤ, pos, leb_ℤ, min_int, max_int, InRange}
use taipan.Exceptions.{Result, ok, err, exception, overflow_error}

pub data Operand : Type 0 where
  int big_int : ℤ → Operand
  bool : Bool → Operand
  other : Operand

abbrev pub of_bool : Bool → ℤ
of_bool true = pos 1
of_bool false = pos 0

-- `convertToInt`, and `ConvertToBigInt`
unfoldable pub convert_to_int : Operand → Option ℤ
convert_to_int (int a) = some a
convert_to_int (bool b) = some (of_bool b)
convert_to_int _ = none

unfoldable pub convert_to_big_int : Operand → Option ℤ
convert_to_big_int (int a) = some a
convert_to_big_int (big_int a) = some a
convert_to_big_int (bool b) = some (of_bool b)
convert_to_big_int other = none

unfoldable pub big_int_to_int : ℤ → Result ℤ
big_int_to_int a =
    if leb_ℤ a max_int && leb_ℤ min_int a
    then ok a
    else err (exception overflow_error "Python int too large to convert to int64")

abbrev or_big : ℤ → Result ℤ → Operand
or_big a (ok i) = int i
or_big a (err e) = big_int a

-- `MaybeInt`
unfoldable pub maybe_int : ℤ → Operand
unfolding big_int_to_int
maybe_int a = or_big a (big_int_to_int a)

-- The integer that an operand stands for.
abbrev pub value : Operand → ℤ
value (int a) = a
value (big_int a) = a
value (bool b) = of_bool b
value other = pos 0

-- An integer or Boolean as the operations build it.
abbrev pub IsCanonical : Operand → Type 0
IsCanonical (int a) = InRange a
IsCanonical (big_int a) = ¬ (InRange a)
IsCanonical (bool b) = Unit
IsCanonical other = ⊥

pub maybe_int-InRange : (a : ℤ) → InRange a → maybe_int a ≡ int a
unfolding maybe_int
maybe_int-InRange a h = ground (arith, h)

pub maybe_int-IsCanonical : (a : ℤ) → IsCanonical (maybe_int a)
unfolding maybe_int
maybe_int-IsCanonical a = elim (Bool-cases (leb_ℤ a max_int && leb_ℤ min_int a)) [
  | inl e ↦ rw e (ground (arith, e))
  | inr e ↦ rw e (λ h. ground (arith, e))
]

-- A canonical operand is determined by its value, but for the Booleans.
pub maybe_int-value : (x : Operand) → IsCanonical x → convert_to_big_int x ≡ some (value x)
unfolding convert_to_big_int
maybe_int-value (int a) h = refl
maybe_int-value (big_int a) h = refl
maybe_int-value (bool b) h = refl
maybe_int-value other h = absurd h
