-- ===== src/Integers/Operators.antt =====
-- py/arithmetic.go: the operators on two objects, for integers and Booleans, with the methods of
-- py/int.go, py/bigint.go and py/bool.go that they call. A method that answers NotImplemented, and
-- one that the type does not have, are `none`; `other` has no methods here.
use mathlib.Core.Option
use taipan.Prelude.{Bool, true, false, not, Option, none, some, if◌then◌else◌}
use taipan.Prelude.Int.{ℤ, pos, ltb_ℤ, leb_ℤ, eqb_ℤ, ◌+ℤ◌, ◌-ℤ◌, ◌*ℤ◌}
use taipan.Exceptions.{Result, ok, err, ◌>>=◌, Exception, exception, type_error}
use taipan.Integers.{
  Operand, int, big_int, bool, other, maybe_int, convert_to_int, convert_to_big_int,
}
use taipan.Integers.Machine.{int_add, int_sub, int_mul, int_div_mod, big_int_div_mod}

unfoldable pub same_type : Operand → Operand → Bool
same_type (int a) (int b) = true
same_type (big_int a) (big_int b) = true
same_type (bool a) (bool b) = true
same_type other other = true
same_type _ _ = false

abbrev pub unsupported : Exception
unsupported = exception type_error "unsupported operand type(s) for %s: '%s' and '%s'"

module _ {R : Type 0} where
  -- The answer of the left operand's method, or else that of the right operand's reflected one.
  unfoldable pub dispatch : Option (Result R) → Bool → Option (Result R) → Result R
  dispatch (some r) same reflected = r
  dispatch none true reflected = err unsupported
  dispatch none false (some r) = r
  dispatch none false none = err unsupported

  -- A method of Int and BigInt, by what it does with the converted operand.
  unfoldable pub method :
      (ℤ → ℤ → Result R) → (ℤ → ℤ → Result R) → Operand → Operand → Option (Result R)
  unfolding convert_to_int convert_to_big_int
  method f g (int a) o = Option.map (f a) (convert_to_int o)
  method f g (big_int a) o = Option.map (g a) (convert_to_big_int o)
  method f g (bool b) o = none
  method f g other o = none

  -- An operator by its method and its reflected method.
  unfoldable pub operate :
      (ℤ → ℤ → Result R)
      → (ℤ → ℤ → Result R)
      → (ℤ → ℤ → Result R)
      → (ℤ → ℤ → Result R)
      → Operand
      → Operand
      → Result R
  unfolding dispatch method same_type
  operate f g f' g' x y = dispatch (method f g x y) (same_type x y) (method f' g' y x)

-- `Add`: `M__radd__` is `M__add__`.
unfoldable pub add : Operand → Operand → Result Operand
unfolding operate
add =
    operate (λ a b. ok (int_add a b)) (λ a b. ok (maybe_int (a +ℤ b))) (λ a b. ok (int_add a b))
      (λ a b. ok (maybe_int (a +ℤ b)))

unfoldable pub sub : Operand → Operand → Result Operand
unfolding operate
sub =
    operate (λ a b. ok (int_sub a b)) (λ a b. ok (maybe_int (a -ℤ b))) (λ a b. ok (int_sub b a))
      (λ a b. ok (maybe_int (b -ℤ a)))

unfoldable pub mul : Operand → Operand → Result Operand
unfolding operate
mul =
    operate (λ a b. ok (int_mul a b)) (λ a b. ok (maybe_int (a *ℤ b))) (λ a b. ok (int_mul a b))
      (λ a b. ok (maybe_int (a *ℤ b)))

unfoldable pub div_mod : Operand → Operand → Result (Operand × Operand)
unfolding operate
div_mod = operate int_div_mod big_int_div_mod (λ a b. int_div_mod b a) (λ a b. big_int_div_mod b a)

abbrev pub quotient : Result (Operand × Operand) → Result Operand
quotient r = r >>= λ p. ok p.0

abbrev pub remainder : Result (Operand × Operand) → Result Operand
remainder r = r >>= λ p. ok p.1

unfoldable pub floor_div : Operand → Operand → Result Operand
unfolding operate
floor_div =
    operate (λ a b. quotient (int_div_mod a b)) (λ a b. quotient (big_int_div_mod a b))
      (λ a b. quotient (int_div_mod b a)) (λ a b. quotient (big_int_div_mod b a))

unfoldable pub mod_of : Operand → Operand → Result Operand
unfolding operate
mod_of =
    operate (λ a b. remainder (int_div_mod a b)) (λ a b. remainder (big_int_div_mod a b))
      (λ a b. remainder (int_div_mod b a)) (λ a b. remainder (big_int_div_mod b a))

-- The comparisons do not look at the types: the right operand has the mirrored method.
unfoldable pub compare_by : (ℤ → ℤ → Bool) → (ℤ → ℤ → Bool) → Operand → Operand → Result Bool
unfolding dispatch method
compare_by test mirrored x y =
    dispatch (method (λ a b. ok (test a b)) (λ a b. ok (test a b)) x y) false
      (method (λ a b. ok (mirrored a b)) (λ a b. ok (mirrored a b)) y x)

unfoldable pub lt : Operand → Operand → Result Bool
unfolding compare_by
lt = compare_by ltb_ℤ (λ a b. ltb_ℤ b a)

unfoldable pub le : Operand → Operand → Result Bool
unfolding compare_by
le = compare_by leb_ℤ (λ a b. leb_ℤ b a)

-- `convertToBool`, without floats
unfoldable pub convert_to_bool : Operand → Option Bool
convert_to_bool (bool b) = some b
convert_to_bool (int a) =
    if eqb_ℤ a (pos 0) then some false else if eqb_ℤ a (pos 1) then some true else none
convert_to_bool _ = none

abbrev pub same_bool : Bool → Option Bool → Bool
same_bool b none = false
same_bool true (some c) = c
same_bool false (some c) = not c

unfoldable pub eq_method : Operand → Operand → Option (Result Bool)
unfolding method convert_to_bool
eq_method (bool b) o = some (ok (same_bool b (convert_to_bool o)))
eq_method x o = method (λ a b. ok (eqb_ℤ a b)) (λ a b. ok (eqb_ℤ a b)) x o

abbrev or_else : Option (Result Bool) → Result Bool → Result Bool
or_else none r = r
or_else (some a) r = a

unfoldable pub eq : Operand → Operand → Result Bool
unfolding eq_method same_type
eq x y =
    or_else (eq_method x y)
      (or_else (eq_method y x) (if same_type x y then err unsupported else ok false))
