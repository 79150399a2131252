-- ===== src/Integers/Quotient.antt =====
-- py/int.go: the range of the quotients and remainders of int64 values, and `Int.divMod`.
use taipan.Prelude.{
  ℕ, zero, suc, ◌+◌, ◌*◌, ◌/◌, ◌%◌, ◌≤◌, ◌<◌, ◌≡◌, ◌≢◌, ◌⊎◌, refl, ap, ◌&&◌, not, Bool-cases, inl,
  inr, arith,
}
use native.Mathlib.Nat.{mul-le-mul_left, div-add-mod', mod-lt}
use taipan.Prelude.Int.{
  ℤ, pos, negsuc, eqb_ℤ, min_int, wrap, wrap-InRange, InRange, ◌+ℤ◌, ◌-ℤ◌, quot,
}
use taipan.Exceptions.{ok}
use taipan.Integers.{int}
use taipan.Integers.Add.{eqb-eq}
use taipan.Integers.Divide.{
  Within, IsFloor, floor_quot, floor_rem, floor_quot-IsFloor, zero_or_pos, Gives-up, Gives-both,
  Gives-down_even, Gives-over_even, Gives-down, Gives-over,
}
use taipan.Integers.Machine.{rem, negative_result, int_div_mod}

quot_le : (q r m s : ℕ) → q * suc m + r ≡ s → q ≤ s
quot_le q r m s e = omega (arith, mul-le-mul_left {m = 1} {n = suc m} q (omega arith))

halved : (q r m s : ℕ) → q * suc m + r ≡ s → 0 < m → q + q ≤ s
halved q r m s e h = omega (arith, mul-le-mul_left {m = 2} {n = suc m} q (omega arith))

-- The quotient of the least int64 by -1 is the one that does not fit.
pub quot-InRange :
    (a b : ℤ) → InRange a → b ≢ pos 0 → (a ≢ min_int) ⊎ (b ≢ negsuc 0) → InRange (quot a b)
unfolding quot
quot-InRange a (pos zero) h ne c = absurd (ne refl)
quot-InRange (pos x) (pos (suc m)) h ne c =
    let l = quot_le (x / suc m) (x % suc m) m x (div-add-mod' x (suc m)) in omega arith
quot-InRange (pos x) (negsuc m) h ne c =
    let l = quot_le (x / suc m) (x % suc m) m x (div-add-mod' x (suc m)) in ground arith
quot-InRange (negsuc x) (pos (suc m)) h ne c =
    let l = quot_le (suc x / suc m) (suc x % suc m) m (suc x) (div-add-mod' (suc x) (suc m)) in
    ground arith
quot-InRange (negsuc x) (negsuc zero) h ne (inl c) =
    let l = quot_le (suc x / 1) (suc x % 1) 0 (suc x) (div-add-mod' (suc x) 1) in
    let below : x ≢ 0x7fff_ffff_ffff_ffff = λ e. c (ap negsuc e) in ground arith
quot-InRange (negsuc x) (negsuc zero) h ne (inr c) = absurd (c refl)
quot-InRange (negsuc x) (negsuc (suc m)) h ne c =
    let l =
      halved (suc x / suc (suc m)) (suc x % suc (suc m)) (suc m) (suc x)
        (div-add-mod' (suc x) (suc (suc m))) (omega arith) in
    omega arith

pub Within-InRange : (r b : ℤ) → InRange b → Within r b → InRange r
Within-InRange r (pos b) h w = omega arith
Within-InRange r (negsuc b) h w = omega arith

pub floor_quot-InRange :
    (a b : ℤ) → InRange a → b ≢ pos 0 → (a ≢ min_int) ⊎ (b ≢ negsuc 0) → InRange (floor_quot a b)
unfolding quot
floor_quot-InRange a (pos zero) h ne c = absurd (ne refl)
floor_quot-InRange (pos x) (pos (suc m)) h ne c =
    rw ((Gives-up x m).0) (quot-InRange (pos x) (pos (suc m)) h ne c)
floor_quot-InRange (negsuc x) (negsuc m) h ne c =
    rw ((Gives-both x m).0) (quot-InRange (negsuc x) (negsuc m) h ne c)
floor_quot-InRange (negsuc x) (pos (suc m)) h ne c =
    let law = div-add-mod' (suc x) (suc m) in
    let below = mod-lt (suc x) {m = suc m} (omega arith) in
    elim (zero_or_pos (suc x % suc m)) [
      | inl e ↦ rw ((Gives-down_even x m e).0) (quot-InRange (negsuc x) (pos (suc m)) h ne c)
      | inr (r, e) ↦
          let l = quot_le (suc x / suc m) r m x (omega (arith, law)) in
          rw ((Gives-down x m r e (omega (arith, below))).0) (omega arith)
    ]
floor_quot-InRange (pos x) (negsuc m) h ne c =
    let law = div-add-mod' x (suc m) in
    let below = mod-lt x {m = suc m} (omega arith) in
    elim (zero_or_pos (x % suc m)) [
      | inl e ↦ rw ((Gives-over_even x m e).0) (quot-InRange (pos x) (negsuc m) h ne c)
      | inr (r, e) ↦
          let l = quot_le (x / suc m) (x % suc m) m x law in
          rw ((Gives-over x m r e (omega (arith, below))).0) (omega arith)
    ]

pub int_div_mod-floor_quot :
    (a b : ℤ)
    → b ≢ pos 0
    → InRange (quot a b)
    → InRange (floor_quot a b)
    → InRange (floor_rem a b)
    → int_div_mod a b ≡ ok (int (floor_quot a b), int (floor_rem a b))
unfolding int_div_mod floor_quot floor_rem
int_div_mod-floor_quot a b ne f g g' = elim (Bool-cases (eqb_ℤ b (pos 0))) [
  | inl e ↦ absurd (ne (eqb-eq b (pos 0) e))
  | inr e ↦ elim (Bool-cases (negative_result a b && not (eqb_ℤ (rem a b) (pos 0)))) [
    | inl t ↦
        let q : InRange (quot a b -ℤ pos 1) = rw t at g in
        let r : InRange (rem a b +ℤ b) = rw t at g' in
        rw
          (
            e,
            t,
            wrap-InRange (quot a b) f,
            wrap-InRange (quot a b -ℤ pos 1) q,
            wrap-InRange (rem a b +ℤ b) r,
          )
          refl
    | inr t ↦ rw (e, t, wrap-InRange (quot a b) f) refl
  ]
]

-- The division of int64 values by a divisor other than 0 rounds down, with the exact quotient and
-- remainder as Ints, but for the least int64 by -1.
pub int_div_mod-IsFloor :
    (a b : ℤ)
    → InRange a
    → InRange b
    → b ≢ pos 0
    → (a ≢ min_int) ⊎ (b ≢ negsuc 0)
    → (q r : ℤ) × (int_div_mod a b ≡ ok (int q, int r)) × InRange q × InRange r × IsFloor a b q r
int_div_mod-IsFloor a b h k ne c =
    let floor = floor_quot-IsFloor a b ne in
    let q = floor_quot-InRange a b h ne c in
    let r = Within-InRange (floor_rem a b) b k floor.within in
    (
      floor_quot a b,
      floor_rem a b,
      int_div_mod-floor_quot a b ne (quot-InRange a b h ne c) q r,
      q,
      r,
      floor,
    )

-- The least int64 by -1 is itself.
int_div_mod_min : int_div_mod min_int (negsuc 0) ≡ ok (int min_int, int (pos 0))
unfolding int_div_mod wrap
int_div_mod_min = refl
