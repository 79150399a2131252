-- ===== src/Integers/Parts.antt =====
-- py/int.go and py/bigint.go: `//` and `%` next to `divmod`.
use taipan.Prelude.{◌≡◌, refl}
use taipan.Integers.{Operand, int, big_int, bool, other}
use taipan.Integers.Operators.{div_mod, floor_div, mod_of, quotient, remainder}

-- The operators `//` and `%` on any two operands are the quotient and the remainder of the division
-- with remainder, with its error where there is one.
pub floor_div-div_mod :
    (x y : Operand)
    → (floor_div x y ≡ quotient (div_mod x y)) × (mod_of x y ≡ remainder (div_mod x y))
unfolding floor_div mod_of div_mod
floor_div-div_mod (int a) (int b) = (refl, refl)
floor_div-div_mod (int a) (big_int b) = (refl, refl)
floor_div-div_mod (int a) (bool b) = (refl, refl)
floor_div-div_mod (int a) other = (refl, refl)
floor_div-div_mod (big_int a) (int b) = (refl, refl)
floor_div-div_mod (big_int a) (big_int b) = (refl, refl)
floor_div-div_mod (big_int a) (bool b) = (refl, refl)
floor_div-div_mod (big_int a) other = (refl, refl)
floor_div-div_mod (bool a) (int b) = (refl, refl)
floor_div-div_mod (bool a) (big_int b) = (refl, refl)
floor_div-div_mod (bool a) (bool b) = (refl, refl)
floor_div-div_mod (bool a) other = (refl, refl)
floor_div-div_mod other (int b) = (refl, refl)
floor_div-div_mod other (big_int b) = (refl, refl)
floor_div-div_mod other (bool b) = (refl, refl)
floor_div-div_mod other other = (refl, refl)
