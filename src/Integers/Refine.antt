-- ===== src/Integers/Refine.antt =====
-- py/arithmetic.go, py/int.go and py/bigint.go: the operators against those of the integers that the
-- operands stand for.
use taipan.Prelude.{
  suc, zero, ◌≡◌, ◌≢◌, ◌⊎◌, refl, sym, ◌∙◌, ap, subst, Bool, true, false, some, if◌then◌else◌, inl,
  inr, arith, Bool-cases,
}
use taipan.Prelude.Int.{
  ℤ, pos, negsuc, ltb_ℤ, leb_ℤ, eqb_ℤ, min_int, max_int, InRange, ◌+ℤ◌, ◌-ℤ◌, ◌*ℤ◌, ◌≤ℤ◌,
}
use taipan.Exceptions.{Result, ok, err}
use taipan.Integers.{
  Operand, int, big_int, bool, other, of_bool, value, maybe_int, IsCanonical, maybe_int-InRange,
}
use taipan.Integers.Machine.{int_div_mod, big_int_div_mod, division_by_zero}
use taipan.Integers.Add.{int_add-exact, int_sub-exact}
use taipan.Integers.Multiply.{int_mul-exact}
use taipan.Integers.Add.{eqb-eq}
use taipan.Integers.Divide.{
  IsFloor, floor_quot, floor_rem, floor_quot-IsFloor, big_int_div_mod-floor_quot,
}
use taipan.Integers.Quotient.{
  int_div_mod-floor_quot, quot-InRange, floor_quot-InRange, Within-InRange,
}
use taipan.Integers.Operators.{
  operate, add, sub, mul, div_mod, lt, le, eq, same_bool, convert_to_bool,
}

-- Not two Booleans.
abbrev pub HasNumber : Operand → Operand → Type 0
HasNumber (bool a) (bool b) = ⊥
HasNumber x y = Unit

-- A property of the values of two operands that are not BigInts.
abbrev pub OnInts : (ℤ → ℤ → Type 0) → Operand → Operand → Type 0
OnInts P (big_int a) y = Unit
OnInts P x (big_int b) = Unit
OnInts P x y = P (value x) (value y)

of_bool-InRange : (b : Bool) → InRange (of_bool b)
of_bool-InRange true = omega arith
of_bool-InRange false = omega arith

-- The two methods and their mirrored ones compute `spec` of the values: those of Int where `P`
-- holds of the values.
module _ {R : Type 0} (spec : ℤ → ℤ → Result R) (P : ℤ → ℤ → Type 0) where
  operate-refines :
      (f g f' g' : ℤ → ℤ → Result R)
      → ((a b : ℤ) → InRange a → InRange b → P a b → f a b ≡ spec a b)
      → ((a b : ℤ) → g a b ≡ spec a b)
      → ((a b : ℤ) → InRange a → InRange b → P b a → f' a b ≡ spec b a)
      → ((a b : ℤ) → g' a b ≡ spec b a)
      → (x y : Operand) → IsCanonical x
      → IsCanonical y
      → HasNumber x y
      → OnInts P x y
      → operate f g f' g' x y ≡ spec (value x) (value y)
  unfolding operate
  operate-refines f g f' g' hf hg hf' hg' (int a) (int b) cx cy n p = hf a b cx cy p
  operate-refines f g f' g' hf hg hf' hg' (int a) (big_int b) cx cy n p = hg' b a
  operate-refines f g f' g' hf hg hf' hg' (int a) (bool b) cx cy n p =
      hf a (of_bool b) cx (of_bool-InRange b) p
  operate-refines f g f' g' hf hg hf' hg' (int a) other cx cy n p = absurd cy
  operate-refines f g f' g' hf hg hf' hg' (big_int a) (int b) cx cy n p = hg a b
  operate-refines f g f' g' hf hg hf' hg' (big_int a) (big_int b) cx cy n p = hg a b
  operate-refines f g f' g' hf hg hf' hg' (big_int a) (bool b) cx cy n p = hg a (of_bool b)
  operate-refines f g f' g' hf hg hf' hg' (big_int a) other cx cy n p = absurd cy
  operate-refines f g f' g' hf hg hf' hg' (bool a) (int b) cx cy n p =
      hf' b (of_bool a) cy (of_bool-InRange a) p
  operate-refines f g f' g' hf hg hf' hg' (bool a) (big_int b) cx cy n p = hg' b (of_bool a)
  operate-refines f g f' g' hf hg hf' hg' (bool a) (bool b) cx cy n p = absurd n
  operate-refines f g f' g' hf hg hf' hg' (bool a) other cx cy n p = absurd cy
  operate-refines f g f' g' hf hg hf' hg' other y cx cy n p = absurd cx

+ℤ_comm : (a b : ℤ) → a +ℤ b ≡ b +ℤ a
unfolding ◌+ℤ◌
+ℤ_comm a b = ground arith

*ℤ_comm : (a b : ℤ) → a *ℤ b ≡ b *ℤ a
unfolding ◌*ℤ◌
*ℤ_comm a b = ground arith

abbrev Any : ℤ → ℤ → Type 0
Any a b = Unit

OnInts-Any : (x y : Operand) → OnInts Any x y
OnInts-Any (int a) (int b) = tt
OnInts-Any (int a) (big_int b) = tt
OnInts-Any (int a) (bool b) = tt
OnInts-Any (int a) other = tt
OnInts-Any (big_int a) y = tt
OnInts-Any (bool a) (int b) = tt
OnInts-Any (bool a) (big_int b) = tt
OnInts-Any (bool a) (bool b) = tt
OnInts-Any (bool a) other = tt
OnInts-Any other (int b) = tt
OnInts-Any other (big_int b) = tt
OnInts-Any other (bool b) = tt
OnInts-Any other other = tt

-- Addition of two operands in canonical representation, integers or Booleans but not both Booleans,
-- is that of the integers they stand for, in canonical representation.
pub add-refines :
    (x y : Operand)
    → IsCanonical x
    → IsCanonical y
    → HasNumber x y
    → add x y ≡ ok (maybe_int (value x +ℤ value y))
unfolding add
add-refines x y cx cy n =
    operate-refines (λ a b. ok (maybe_int (a +ℤ b))) Any _ _ _ _
      (λ a b h k p. ap ok (int_add-exact a b h k)) (λ a b. refl)
      (λ a b h k p. ap ok (int_add-exact a b h k ∙ ap maybe_int (+ℤ_comm a b)))
      (λ a b. ap (λ c. ok (maybe_int c)) (+ℤ_comm a b)) x y cx cy n (OnInts-Any x y)

-- The differences on which `intSub` is exact.
abbrev pub Subtracts : ℤ → ℤ → Type 0
Subtracts a b = (pos 0 ≤ℤ b) ⊎ (a -ℤ b ≤ℤ max_int)

-- Subtraction of two operands in canonical representation, integers or Booleans but not both
-- Booleans, is that of the integers they stand for, in canonical representation, if one of them is a
-- BigInt, the second is not negative, or the difference does not exceed the largest int64.
pub sub-refines :
    (x y : Operand)
    → IsCanonical x
    → IsCanonical y
    → HasNumber x y
    → OnInts Subtracts x y
    → sub x y ≡ ok (maybe_int (value x -ℤ value y))
unfolding sub
sub-refines x y cx cy n p =
    operate-refines (λ a b. ok (maybe_int (a -ℤ b))) Subtracts _ _ _ _
      (λ a b h k q. ap ok (int_sub-exact a b h k q)) (λ a b. refl)
      (λ a b h k q. ap ok (int_sub-exact b a k h q)) (λ a b. refl) x y cx cy n p

abbrev pub Multiplies : ℤ → ℤ → Type 0
Multiplies a b = (a ≢ min_int) × (b ≢ min_int)

-- Multiplication of two operands in canonical representation, integers or Booleans but not both
-- Booleans, is that of the integers they stand for, in canonical representation, if one of them is a
-- BigInt or neither is the least int64.
pub mul-refines :
    (x y : Operand)
    → IsCanonical x
    → IsCanonical y
    → HasNumber x y
    → OnInts Multiplies x y
    → mul x y ≡ ok (maybe_int (value x *ℤ value y))
unfolding mul
mul-refines x y cx cy n p =
    operate-refines (λ a b. ok (maybe_int (a *ℤ b))) Multiplies _ _ _ _
      (λ a b h k q. ap ok (int_mul-exact a b h k q.0 q.1)) (λ a b. refl)
      (λ a b h k q. ap ok (int_mul-exact a b h k q.1 q.0 ∙ ap maybe_int (*ℤ_comm a b)))
      (λ a b. ap (λ c. ok (maybe_int c)) (*ℤ_comm a b)) x y cx cy n p

-- The mathematical division, whose divisor 0 is the error of Python.
abbrev pub divide : ℤ → ℤ → Result (Operand × Operand)
divide a b =
    if eqb_ℤ b (pos 0)
    then err division_by_zero
    else ok (maybe_int (floor_quot a b), maybe_int (floor_rem a b))

abbrev pub Divides : ℤ → ℤ → Type 0
Divides a b = (a ≢ min_int) ⊎ (b ≢ negsuc 0)

int_div_mod_zero : (a : ℤ) → int_div_mod a (pos 0) ≡ err division_by_zero
unfolding int_div_mod
int_div_mod_zero a = refl

big_int_div_mod_zero : (a : ℤ) → big_int_div_mod a (pos 0) ≡ err division_by_zero
unfolding big_int_div_mod
big_int_div_mod_zero a = refl

divide_zero : (a : ℤ) → divide a (pos 0) ≡ err division_by_zero
divide_zero a = refl

divide_nonzero :
    (a b : ℤ) → b ≢ pos 0 → divide a b ≡ ok (maybe_int (floor_quot a b), maybe_int (floor_rem a b))
divide_nonzero a b ne = elim (Bool-cases (eqb_ℤ b (pos 0))) [
  | inl e ↦ absurd (ne (eqb-eq b (pos 0) e))
  | inr e ↦ rw e refl
]

zero_or : (b : ℤ) → (b ≡ pos 0) ⊎ (b ≢ pos 0)
zero_or (pos zero) = inl refl
zero_or (pos (suc n)) = inr (λ e. ground (arith, e))
zero_or (negsuc n) = inr (λ e. ground (arith, e))

int_div_mod-divide : (a b : ℤ) → InRange a → InRange b → Divides a b → int_div_mod a b ≡ divide a b
int_div_mod-divide a b h k c = elim (zero_or b) [
  | inl e ↦ rw e (int_div_mod_zero a ∙ sym (divide_zero a))
  | inr ne ↦
      let q = floor_quot-InRange a b h ne c in
      let r = Within-InRange (floor_rem a b) b k ((floor_quot-IsFloor a b ne).within) in
      int_div_mod-floor_quot a b ne (quot-InRange a b h ne c) q r
      ∙ sym (divide_nonzero a b ne ∙ rw (maybe_int-InRange _ q, maybe_int-InRange _ r) refl)
]

big_int_div_mod-divide : (a b : ℤ) → big_int_div_mod a b ≡ divide a b
big_int_div_mod-divide a b = elim (zero_or b) [
  | inl e ↦ rw e (big_int_div_mod_zero a ∙ sym (divide_zero a))
  | inr ne ↦ big_int_div_mod-floor_quot a b ne ∙ sym (divide_nonzero a b ne)
]

pub div_mod-refines :
    (x y : Operand)
    → IsCanonical x
    → IsCanonical y
    → HasNumber x y
    → OnInts Divides x y
    → div_mod x y ≡ divide (value x) (value y)
unfolding div_mod
div_mod-refines x y cx cy n p =
    operate-refines divide Divides _ _ _ _ int_div_mod-divide big_int_div_mod-divide
      (λ a b h k q. int_div_mod-divide b a k h q) (λ a b. big_int_div_mod-divide b a) x y cx cy n p

-- The error of a division by zero, or the quotient rounded down and its remainder.
abbrev pub Quotients : ℤ → ℤ → Result (Operand × Operand) → Type 0
Quotients a b result =
    ((b ≡ pos 0) × (result ≡ err division_by_zero))
    ⊎ ((b ≢ pos 0) × ((q r : ℤ) × (result ≡ ok (maybe_int q, maybe_int r)) × IsFloor a b q r))

-- Division with remainder of two operands in canonical representation, integers or Booleans but not
-- both Booleans, is the error of a division by zero where the divisor stands for 0, and else the
-- quotient of the integers that they stand for, rounded down, and its remainder, both in canonical
-- representation. One of the operands is a BigInt, the first is not the least int64 or the second is
-- not -1.
pub div_mod-Quotients :
    (x y : Operand)
    → IsCanonical x
    → IsCanonical y
    → HasNumber x y
    → OnInts Divides x y
    → Quotients (value x) (value y) (div_mod x y)
div_mod-Quotients x y cx cy n p =
    let e = div_mod-refines x y cx cy n p in
    let a = value x in
    let b = value y in
    elim (zero_or b) [
      | inl z ↦ inl (z, e ∙ ap (divide a) z ∙ divide_zero a)
      | inr ne ↦ inr (
        ne,
        (floor_quot a b, floor_rem a b, e ∙ divide_nonzero a b ne, floor_quot-IsFloor a b ne),
      )
    ]

-- The comparisons < and <= of two operands in canonical representation, integers or Booleans but not
-- both Booleans, are those of the integers they stand for.
pub lt-refines :
    (x y : Operand)
    → IsCanonical x
    → IsCanonical y
    → HasNumber x y
    → (lt x y ≡ ok (ltb_ℤ (value x) (value y))) × (le x y ≡ ok (leb_ℤ (value x) (value y)))
unfolding lt le
lt-refines (int a) (int b) cx cy n = (refl, refl)
lt-refines (int a) (big_int b) cx cy n = (refl, refl)
lt-refines (int a) (bool b) cx cy n = (refl, refl)
lt-refines (big_int a) (int b) cx cy n = (refl, refl)
lt-refines (big_int a) (big_int b) cx cy n = (refl, refl)
lt-refines (big_int a) (bool b) cx cy n = (refl, refl)
lt-refines (bool a) (int b) cx cy n = (refl, refl)
lt-refines (bool a) (big_int b) cx cy n = (refl, refl)
lt-refines (bool a) (bool b) cx cy n = absurd n
lt-refines other y cx cy n = absurd cx
lt-refines (int a) other cx cy n = absurd cy
lt-refines (big_int a) other cx cy n = absurd cy
lt-refines (bool a) other cx cy n = absurd cy

eqb_comm : (a b : ℤ) → eqb_ℤ a b ≡ eqb_ℤ b a
eqb_comm a b = ground arith

same_bool-eqb : (b : Bool) (a : ℤ) → same_bool b (convert_to_bool (int a)) ≡ eqb_ℤ (of_bool b) a
unfolding convert_to_bool
same_bool-eqb true a = ground arith
same_bool-eqb false a = ground arith

same_bools : (a b : Bool) → same_bool a (some b) ≡ eqb_ℤ (of_bool a) (of_bool b)
same_bools true true = refl
same_bools true false = refl
same_bools false true = refl
same_bools false false = refl

of_bool-big : (b : Bool) (a : ℤ) → ¬ (InRange a) → eqb_ℤ (of_bool b) a ≡ false
of_bool-big b a n = elim (Bool-cases (eqb_ℤ (of_bool b) a)) [
  | inl e ↦ absurd (n (subst InRange (eqb-eq (of_bool b) a e) (of_bool-InRange b)))
  | inr e ↦ e
]

-- Two operands in canonical representation, integers or Booleans, are equal if and only if the
-- integers they stand for are.
pub eq-refines :
    (x y : Operand) → IsCanonical x → IsCanonical y → eq x y ≡ ok (eqb_ℤ (value x) (value y))
unfolding eq
eq-refines (int a) (int b) cx cy = refl
eq-refines (int a) (big_int b) cx cy = ap ok (eqb_comm b a)
eq-refines (int a) (bool b) cx cy = refl
eq-refines (big_int a) (int b) cx cy = refl
eq-refines (big_int a) (big_int b) cx cy = refl
eq-refines (big_int a) (bool b) cx cy = refl
eq-refines (bool a) (int b) cx cy = ap ok (same_bool-eqb a b)
eq-refines (bool a) (big_int b) cx cy = ap ok (sym (of_bool-big a b cy))
eq-refines (bool a) (bool b) cx cy = ap ok (same_bools a b)
eq-refines other y cx cy = absurd cx
eq-refines (int a) other cx cy = absurd cy
eq-refines (big_int a) other cx cy = absurd cy
eq-refines (bool a) other cx cy = absurd cy
