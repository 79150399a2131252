-- ===== src/Integers/Divide.antt =====
-- py/int.go and py/bigint.go: `divMod` and the division that rounds down.
use taipan.Prelude.{
  ℕ, zero, suc, ◌+◌, ◌-◌, ◌*◌, ◌/◌, ◌%◌, ◌<◌, ◌≡◌, ◌≢◌, ◌⊎◌, refl, ◌&&◌, not, if◌then◌else◌,
  Bool-cases, inl, inr, arith,
}
use native.Mathlib.Nat.{suc-mul, div-add-mod', mod-lt}
use taipan.Prelude.Int.{ℤ, pos, negsuc, neg_ℕ, eqb_ℤ, ◌+ℤ◌, ◌-ℤ◌, ◌*ℤ◌, ◌≤ℤ◌, ◌<ℤ◌, quot}
use taipan.Exceptions.{ok}
use taipan.Integers.{maybe_int}
use taipan.Integers.Add.{eqb-eq}
use taipan.Integers.Machine.{rem, negative_result, big_int_div_mod}

-- The remainder lies between 0 and the divisor, and has its sign.
abbrev pub Within : ℤ → ℤ → Type 0
Within r (pos b) = (pos 0 ≤ℤ r) × (r <ℤ pos b)
Within r (negsuc b) = (negsuc b <ℤ r) × (r ≤ℤ pos 0)

pub record IsFloor (a b q r : ℤ) : Type 0 where
  pub divides : a ≡ q *ℤ b +ℤ r
  pub within : Within r b

positive_difference : (a b : ℕ) → b < a → (d : ℕ) × (a - b ≡ suc d)
positive_difference a b h = (a - b - 1, omega arith)

IsFloor-up :
    (x q r m : ℕ) → q * suc m + r ≡ x → r < suc m → IsFloor (pos x) (pos (suc m)) (pos q) (pos r)
unfolding ◌+ℤ◌ ◌*ℤ◌
IsFloor-up x q r m e h = ground arith

IsFloor-both :
    (x q r m : ℕ)
    → q * suc m + r ≡ suc x
    → r < suc m
    → IsFloor (negsuc x) (negsuc m) (pos q) (neg_ℕ r)
unfolding ◌+ℤ◌ ◌*ℤ◌
IsFloor-both x q zero m e h = ground arith
IsFloor-both x q (suc r) m e h = ground arith

IsFloor-down_even :
    (x q m : ℕ) → q * suc m ≡ suc x → IsFloor (negsuc x) (pos (suc m)) (neg_ℕ q) (pos 0)
unfolding ◌+ℤ◌ ◌*ℤ◌
IsFloor-down_even x zero m e = ground arith
IsFloor-down_even x (suc q) m e = ground arith

IsFloor-over_even : (x q m : ℕ) → q * suc m ≡ x → IsFloor (pos x) (negsuc m) (neg_ℕ q) (pos 0)
unfolding ◌+ℤ◌ ◌*ℤ◌
IsFloor-over_even x zero m e = ground arith
IsFloor-over_even x (suc q) m e = ground arith

IsFloor-down :
    (x q r m : ℕ)
    → q * suc m + r ≡ suc x
    → r < suc m
    → 0 < r
    → IsFloor (negsuc x) (pos (suc m)) (negsuc q) (pos (suc m - r))
unfolding ◌+ℤ◌ ◌*ℤ◌
IsFloor-down x q r m e h k = let step = suc-mul q (suc m) in ground arith

IsFloor-over :
    (x q r m : ℕ)
    → q * suc m + r ≡ x
    → r < suc m
    → 0 < r
    → IsFloor (pos x) (negsuc m) (negsuc q) (neg_ℕ (suc m - r))
unfolding ◌+ℤ◌ ◌*ℤ◌
IsFloor-over x q r m e h k =
    let step = suc-mul q (suc m) in
    let (d, f) = positive_difference (suc m) r h in rw f (ground arith)

-- The quotient and the remainder that both `divMod`s compute, where nothing wraps around.
unfoldable pub floor_quot : ℤ → ℤ → ℤ
unfolding quot rem
floor_quot a b =
    if negative_result a b && not (eqb_ℤ (rem a b) (pos 0)) then quot a b -ℤ pos 1 else quot a b

unfoldable pub floor_rem : ℤ → ℤ → ℤ
unfolding rem
floor_rem a b =
    if negative_result a b && not (eqb_ℤ (rem a b) (pos 0)) then rem a b +ℤ b else rem a b

pub zero_or_pos : (n : ℕ) → (n ≡ 0) ⊎ ((m : ℕ) × (n ≡ suc m))
zero_or_pos zero = inl refl
zero_or_pos (suc n) = inr (n, refl)

-- The two values in each case of the signs and of the remainder.
abbrev pub Gives : ℤ → ℤ → ℤ → ℤ → Type 0
Gives a b q r = (floor_quot a b ≡ q) × (floor_rem a b ≡ r)

pub Gives-up : (x m : ℕ) → Gives (pos x) (pos (suc m)) (pos (x / suc m)) (pos (x % suc m))
unfolding floor_quot floor_rem
Gives-up x m = ground arith

pub Gives-both :
    (x m : ℕ) → Gives (negsuc x) (negsuc m) (pos (suc x / suc m)) (neg_ℕ (suc x % suc m))
unfolding floor_quot floor_rem
Gives-both x m = ground arith

pub Gives-down_even :
    (x m : ℕ) → suc x % suc m ≡ 0 → Gives (negsuc x) (pos (suc m)) (neg_ℕ (suc x / suc m)) (pos 0)
unfolding floor_quot floor_rem
Gives-down_even x m e = ground arith

pub Gives-over_even :
    (x m : ℕ) → x % suc m ≡ 0 → Gives (pos x) (negsuc m) (neg_ℕ (x / suc m)) (pos 0)
unfolding floor_quot floor_rem
Gives-over_even x m e = ground arith

pub Gives-down :
    (x m r : ℕ)
    → suc x % suc m ≡ suc r
    → r < m
    → Gives (negsuc x) (pos (suc m)) (negsuc (suc x / suc m)) (pos (suc m - suc r))
unfolding floor_quot floor_rem ◌+ℤ◌ ◌-ℤ◌
Gives-down x m r e h = ground arith

pub Gives-over :
    (x m r : ℕ)
    → x % suc m ≡ suc r
    → r < m
    → Gives (pos x) (negsuc m) (negsuc (x / suc m)) (neg_ℕ (suc m - suc r))
unfolding floor_quot floor_rem ◌+ℤ◌ ◌-ℤ◌
Gives-over x m r e h = ground arith

IsFloor-Gives :
    (a b q r : ℤ) → Gives a b q r → IsFloor a b q r → IsFloor a b (floor_quot a b) (floor_rem a b)
IsFloor-Gives a b q r (e, f) h = rw (e, f) h

pub floor_quot-IsFloor : (a b : ℤ) → b ≢ pos 0 → IsFloor a b (floor_quot a b) (floor_rem a b)
floor_quot-IsFloor a (pos zero) ne = absurd (ne refl)
floor_quot-IsFloor (pos x) (pos (suc m)) ne =
    IsFloor-Gives _ _ _ _ (Gives-up x m)
      (IsFloor-up x (x / suc m) (x % suc m) m (div-add-mod' x (suc m)) (mod-lt x (omega arith)))
floor_quot-IsFloor (negsuc x) (negsuc m) ne = IsFloor-Gives _ _ _ _ (Gives-both x m) (
    IsFloor-both x (suc x / suc m) (suc x % suc m) m (div-add-mod' (suc x) (suc m))
      (mod-lt (suc x) (omega arith)))
floor_quot-IsFloor (negsuc x) (pos (suc m)) ne =
    let law = div-add-mod' (suc x) (suc m) in
    let below = mod-lt (suc x) {m = suc m} (omega arith) in
    elim (zero_or_pos (suc x % suc m)) [
      | inl e ↦
          IsFloor-Gives _ _ _ _ (Gives-down_even x m e)
            (IsFloor-down_even x (suc x / suc m) m (omega (arith, law)))
      | inr (r, e) ↦ IsFloor-Gives _ _ _ _ (Gives-down x m r e (omega (arith, below))) (
          IsFloor-down x (suc x / suc m) (suc r) m (omega (arith, law)) (omega (arith, below))
            (omega arith))
    ]
floor_quot-IsFloor (pos x) (negsuc m) ne =
    let law = div-add-mod' x (suc m) in
    let below = mod-lt x {m = suc m} (omega arith) in
    elim (zero_or_pos (x % suc m)) [
      | inl e ↦
          IsFloor-Gives _ _ _ _ (Gives-over_even x m e)
            (IsFloor-over_even x (x / suc m) m (omega (arith, law)))
      | inr (r, e) ↦ IsFloor-Gives _ _ _ _ (Gives-over x m r e (omega (arith, below))) (
          IsFloor-over x (x / suc m) (suc r) m (omega (arith, law)) (omega (arith, below))
            (omega arith))
    ]

pub big_int_div_mod-floor_quot :
    (a b : ℤ)
    → b ≢ pos 0
    → big_int_div_mod a b ≡ ok (maybe_int (floor_quot a b), maybe_int (floor_rem a b))
unfolding big_int_div_mod floor_quot floor_rem
big_int_div_mod-floor_quot a b ne = elim (Bool-cases (eqb_ℤ b (pos 0))) [
  | inl e ↦ absurd (ne (eqb-eq b (pos 0) e))
  | inr e ↦ elim (Bool-cases (negative_result a b && not (eqb_ℤ (rem a b) (pos 0)))) [
    | inl t ↦ rw (e, t) refl
    | inr t ↦ rw (e, t) refl
  ]
]

-- The division of integers beyond 64 bits rounds down, and its results are exact.
pub big_int_div_mod-IsFloor :
    (a b : ℤ)
    → b ≢ pos 0
    → (q r : ℤ) × (big_int_div_mod a b ≡ ok (maybe_int q, maybe_int r)) × IsFloor a b q r
big_int_div_mod-IsFloor a b ne =
    (floor_quot a b, floor_rem a b, big_int_div_mod-floor_quot a b ne, floor_quot-IsFloor a b ne)
