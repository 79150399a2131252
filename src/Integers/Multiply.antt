-- ===== src/Integers/Multiply.antt =====
-- py/int.go: `intMul` and its overflow test.
use taipan.Prelude.{
  ℕ, ◌*◌, ◌≤◌, ◌<◌, ◌≡◌, ◌≢◌, refl, ap, Bool, true, false, ◌&&◌, leb→le, if◌then◌else◌, arith,
}
use native.Mathlib.Nat.{mul-le-mul}
use taipan.Prelude.Int.{ℤ, pos, negsuc, leb_ℤ, min_int, wrap, InRange, ◌-ℤ◌, ◌*ℤ◌}
use taipan.Integers.{int, maybe_int}
use taipan.Integers.Add.{fits}
use taipan.Integers.Machine.{int_mul, abs64, sqrt_int_max, size}

size-mul : (a b : ℤ) → size (a *ℤ b) ≡ size a * size b
unfolding ◌*ℤ◌
size-mul (pos m) (pos n) = ground arith
size-mul (pos m) (negsuc n) = ground arith
size-mul (negsuc m) (pos n) = ground arith
size-mul (negsuc m) (negsuc n) = ground arith

InRange-of_size : (a : ℤ) → size a ≤ 0x7fff_ffff_ffff_ffff → InRange a
InRange-of_size (pos n) h = omega arith
InRange-of_size (negsuc n) h = omega arith

abs64-size : (a : ℤ) → InRange a → a ≢ min_int → abs64 a ≡ pos (size a)
unfolding wrap ◌-ℤ◌
abs64-size (pos n) h ne = ground arith
abs64-size (negsuc n) h ne =
    let below : n ≢ 0x7fff_ffff_ffff_ffff = λ e. ne (ap negsuc e) in ground arith

and-true : (a b : Bool) → (a && b) ≡ true → (a ≡ true) × (b ≡ true)
and-true true b h = (refl, h)
and-true false b h = cc

exact_if :
    (t : Bool) (c : ℤ)
    → (t ≡ true → InRange c)
    → (if t then int (wrap c) else maybe_int c) ≡ maybe_int c
exact_if true c f = fits c (f refl)
exact_if false c f = refl

-- The product of two int64 values is exact where neither is the least one.
pub int_mul-exact :
    (a b : ℤ) → InRange a → InRange b → a ≢ min_int → b ≢ min_int → int_mul a b ≡ maybe_int (a *ℤ b)
unfolding int_mul
int_mul-exact a b h k ne ne' =
    rw (abs64-size a h ne, abs64-size b k ne')
      (exact_if _ (a *ℤ b) (λ t.
        let (l, l') =
          and-true (leb_ℤ (pos (size a)) sqrt_int_max) (leb_ℤ (pos (size b)) sqrt_int_max) t in
        let bound =
          mul-le-mul {n₁ = size a} {m₁ = size b} {n₂ = 3037000499} {m₂ = 3037000499}
            (omega (arith, leb→le _ _ l)) (omega (arith, leb→le _ _ l')) in
        InRange-of_size (a *ℤ b) (omega (arith, bound, size-mul a b))))

-- Times an even number from 2 to the root of the largest int64, the least int64 is 0.
pub int_mul_min : (k : ℕ) → 0 < k → 2 * k ≤ 3037000499 → int_mul min_int (pos (2 * k)) ≡ int (pos 0)
unfolding int_mul wrap ◌-ℤ◌ ◌*ℤ◌
int_mul_min k h h' = ground arith
