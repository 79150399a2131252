-- ===== src/Integers/Machine.antt =====
-- py/int.go: the operations on two 64-bit integers, with their overflow tests.
use taipan.Prelude.{ℕ, suc, ◌^◌, ◌%◌, ◌/◌, Bool, not, ◌&&◌, if◌then◌else◌}
use taipan.Prelude.Int.{
  ℤ, pos, negsuc, pos_part, ltb_ℤ, leb_ℤ, eqb_ℤ, min_int, max_int, wrap, add64, sub64, mul64, quot,
  neg_ℕ, ◌+ℤ◌, ◌-ℤ◌, ◌*ℤ◌,
}
use taipan.Exceptions.{Result, ok, err, Exception, exception, zero_division_error, value_error}
use taipan.Integers.{Operand, int, big_int, maybe_int}

abbrev pub division_by_zero : Exception
division_by_zero = exception zero_division_error "division by zero"

abbrev pub negative_shift_count : Exception
negative_shift_count = exception value_error "negative shift count"

-- The largest number whose square is an int64.
abbrev pub sqrt_int_max : ℤ
sqrt_int_max = pos 3037000499

abbrev pub neg64 : ℤ → ℤ
neg64 a = sub64 (pos 0) a

unfoldable pub int_neg : ℤ → Operand
int_neg a = if eqb_ℤ a min_int then big_int (pos 0 -ℤ min_int) else int (neg64 a)

unfoldable pub int_abs : ℤ → Operand
unfolding int_neg
int_abs a = if eqb_ℤ a min_int then int_neg a else if ltb_ℤ a (pos 0) then int (neg64 a) else int a

unfoldable pub int_add : ℤ → ℤ → Operand
int_add a b =
    if leb_ℤ (pos 0) a
    then (if ltb_ℤ (sub64 max_int a) b then maybe_int (a +ℤ b) else int (add64 a b))
    else (if ltb_ℤ b (sub64 min_int a) then maybe_int (a +ℤ b) else int (add64 a b))

-- The second test is the source's.
unfoldable pub int_sub : ℤ → ℤ → Operand
int_sub a b =
    if leb_ℤ (pos 0) b
    then (if ltb_ℤ a (add64 min_int b) then maybe_int (a -ℤ b) else int (sub64 a b))
    else (if ltb_ℤ a (add64 max_int b) then maybe_int (a -ℤ b) else int (sub64 a b))

abbrev pub abs64 : ℤ → ℤ
abs64 a = if ltb_ℤ a (pos 0) then neg64 a else a

unfoldable pub int_mul : ℤ → ℤ → Operand
int_mul a b =
    if leb_ℤ (abs64 a) sqrt_int_max && leb_ℤ (abs64 b) sqrt_int_max
    then int (mul64 a b)
    else maybe_int (a *ℤ b)

-- Go's `>>`, which rounds down.
unfoldable pub shift_right : ℤ → ℕ → ℤ
shift_right (pos n) s = pos (n / 2 ^ s)
shift_right (negsuc n) s = negsuc (n / 2 ^ s)

unfoldable pub int_lshift : ℤ → ℤ → Result Operand
unfolding shift_right
int_lshift a b =
    let exact = a *ℤ pos (2 ^ pos_part b) in
    let r = wrap exact in
    if ltb_ℤ b (pos 0)
    then err negative_shift_count
    else if eqb_ℤ (shift_right r (pos_part b)) a
    then ok (int r)
    else ok (big_int exact)

unfoldable pub int_rshift : ℤ → ℤ → Result Operand
unfolding shift_right
int_rshift a b =
    if ltb_ℤ b (pos 0) then err negative_shift_count else ok (int (shift_right a (pos_part b)))

-- The size of a divisor.
abbrev pub size : ℤ → ℕ
size (pos n) = n
size (negsuc n) = suc n

-- Go's `%`, whose sign is the dividend's.
unfoldable pub rem : ℤ → ℤ → ℤ
rem (pos a) b = pos (a % size b)
rem (negsuc a) b = neg_ℕ (suc a % size b)

abbrev pub negative_result : ℤ → ℤ → Bool
negative_result a b = if ltb_ℤ b (pos 0) then not (ltb_ℤ a (pos 0)) else ltb_ℤ a (pos 0)

-- `Int.divMod`
unfoldable pub int_div_mod : ℤ → ℤ → Result (Operand × Operand)
unfolding quot rem
int_div_mod a b =
    let result = wrap (quot a b) in
    let remainder = rem a b in
    if eqb_ℤ b (pos 0)
    then err division_by_zero
    else if negative_result a b && not (eqb_ℤ remainder (pos 0))
    then ok (int (sub64 result (pos 1)), int (add64 remainder b))
    else ok (int result, int remainder)

-- `BigInt.divMod`
unfoldable pub big_int_div_mod : ℤ → ℤ → Result (Operand × Operand)
unfolding quot rem
big_int_div_mod a b =
    let result = quot a b in
    let remainder = rem a b in
    if eqb_ℤ b (pos 0)
    then err division_by_zero
    else if negative_result a b && not (eqb_ℤ remainder (pos 0))
    then ok (maybe_int (result -ℤ pos 1), maybe_int (remainder +ℤ b))
    else ok (maybe_int result, maybe_int remainder)
