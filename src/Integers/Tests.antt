-- ===== src/Integers/Tests.antt =====
-- py/int.go, py/bigint.go and py/arithmetic.go: the operators at concrete operands.
use taipan.Prelude.{◌≡◌, refl, inl, inr, arith, true}
use taipan.Prelude.Int.{
  ℤ, pos, negsuc, max_int, ◌+ℤ◌, ◌-ℤ◌, ◌*ℤ◌, ◌<ℤ◌, eqb_ℤ, ltb_ℤ, leb_ℤ, quot, wrap, -ℤ_parts,
}
use taipan.Exceptions.{ok, err}
use taipan.Integers.{Operand, int, big_int, bool, maybe_int, IsCanonical}
use taipan.Integers.Machine.{int_sub, int_div_mod, int_lshift}
use taipan.Integers.Add.{int_sub_wraps}
use taipan.Integers.Operators.{add, sub, mul, div_mod, lt, le, eq, unsupported}
use taipan.Integers.Refine.{
  add-refines, sub-refines, mul-refines, div_mod-Quotients, Quotients, eq-refines, lt-refines,
}

-- 2^63
abbrev beyond : Operand
beyond = big_int (pos 0x8000_0000_0000_0000)

beyond-IsCanonical : IsCanonical beyond
beyond-IsCanonical h = omega (arith, h)

-- The least Int less 1, by way of a BigInt
add-refines_example :
    add beyond (int (negsuc 0)) ≡ ok (maybe_int (pos 0x8000_0000_0000_0000 +ℤ negsuc 0))
add-refines_example = add-refines beyond (int (negsuc 0)) beyond-IsCanonical (omega arith) tt

added : add beyond (int (negsuc 0)) ≡ ok (int max_int)
unfolding add maybe_int ◌+ℤ◌
added = refl

sub-refines_example : sub (bool true) (int (negsuc 4)) ≡ ok (maybe_int (pos 1 -ℤ negsuc 4))
sub-refines_example =
    sub-refines (bool true) (int (negsuc 4)) tt (omega arith) tt
      (inr (ground (arith, -ℤ_parts (pos 1) (negsuc 4))))

mul-refines_example : mul (int max_int) (int (pos 3)) ≡ ok (maybe_int (max_int *ℤ pos 3))
mul-refines_example =
    mul-refines (int max_int) (int (pos 3)) (omega arith) (omega arith) tt
      (λ e. ground (arith, e), λ e. ground (arith, e))

div_mod-Quotients_example : Quotients (negsuc 6) (pos 2) (div_mod (int (negsuc 6)) (int (pos 2)))
div_mod-Quotients_example =
    div_mod-Quotients (int (negsuc 6)) (int (pos 2)) (omega arith) (omega arith) tt
      (inl (λ e. ground (arith, e)))

-- -7 by 2 is -4, with remainder 1
divided : div_mod (int (negsuc 6)) (int (pos 2)) ≡ ok (int (negsuc 3), int (pos 1))
unfolding div_mod int_div_mod quot wrap ◌-ℤ◌ ◌+ℤ◌
divided = refl

lt-refines_example :
    (lt (bool true) beyond ≡ ok (ltb_ℤ (pos 1) (pos 0x8000_0000_0000_0000)))
    × (le (bool true) beyond ≡ ok (leb_ℤ (pos 1) (pos 0x8000_0000_0000_0000)))
lt-refines_example = lt-refines (bool true) beyond tt beyond-IsCanonical tt

eq-refines_example : eq (bool true) (int (pos 1)) ≡ ok (eqb_ℤ (pos 1) (pos 1))
eq-refines_example = eq-refines (bool true) (int (pos 1)) tt (omega arith)

-- The largest Int less -1
int_sub_wraps_example :
    (r : ℤ) × (int_sub max_int (negsuc 0) ≡ int r)
    × (r <ℤ pos 0)
    × (max_int -ℤ negsuc 0 ≡ r +ℤ pos 0x1_0000_0000_0000_0000)
int_sub_wraps_example =
    int_sub_wraps max_int (negsuc 0) (omega arith) (omega arith)
      (ground (arith, -ℤ_parts max_int (negsuc 0)))

-- 1 << 62 is an Int and 1 << 63 a BigInt
shifted : int_lshift (pos 1) (pos 62) ≡ ok (int (pos 0x4000_0000_0000_0000))
unfolding int_lshift wrap ◌*ℤ◌
shifted = refl

shifted_out : int_lshift (pos 1) (pos 63) ≡ ok beyond
unfolding int_lshift wrap ◌*ℤ◌
shifted_out = refl

-- Bool has no addition.
two_trues : add (bool true) (bool true) ≡ err unsupported
unfolding add
two_trues = refl
