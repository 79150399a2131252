-- ===== src/Integers/Add.antt =====
-- py/int.go: `intAdd`, `intSub`, negation and the absolute value against those of the integers.
use taipan.Prelude.{
  ℕ, Bool, ◌≤◌, ◌<◌, ◌-◌, ◌⊎◌, leb→le, ◌≡◌, refl, ap, sym, ◌∙◌, true, false, ltb, ltb→lt, leb,
  if◌then◌else◌, Bool-cases, inl, inr, arith,
}
use taipan.Prelude.Int.{
  ℤ, pos, negsuc, ltb_ℤ, leb_ℤ, eqb_ℤ, min_int, max_int, wrap, wrap-InRange, add64, sub64, InRange,
  ◌+ℤ◌, ◌-ℤ◌, ◌≤ℤ◌, ◌<ℤ◌, +ℤ_parts, -ℤ_parts,
}
use taipan.Integers.{int, maybe_int, maybe_int-InRange}
use taipan.Integers.Machine.{int_add, int_sub, int_neg, int_abs}

pub fits : (a : ℤ) → InRange a → int (wrap a) ≡ maybe_int a
fits a h = ap int (wrap-InRange a h) ∙ sym (maybe_int-InRange a h)

-- An overflow test that is false where the exact result fits.
if_exact :
    (t : Bool) (c : ℤ)
    → (t ≡ false → InRange c)
    → (if t then maybe_int c else int (wrap c)) ≡ maybe_int c
if_exact true c f = refl
if_exact false c f = fits c (f refl)

-- A test that failed.
pub ltb-false : (m n : ℕ) → ltb m n ≡ false → n ≤ m
ltb-false m n h = ground arith

ltb_of_le : (m n : ℕ) → n ≤ m → ltb m n ≡ false
ltb_of_le m n h = ground arith

pub leb-false : (m n : ℕ) → leb m n ≡ false → n < m
leb-false m n h = ground arith

-- The sum of two int64 values is exact: an Int where it fits, and a BigInt where it does not.
pub int_add-exact : (a b : ℤ) → InRange a → InRange b → int_add a b ≡ maybe_int (a +ℤ b)
unfolding int_add
int_add-exact a b h k = elim (Bool-cases (leb_ℤ (pos 0) a)) [
  | inl up ↦
      let sign = leb→le _ _ up in
      let room : sub64 max_int a ≡ max_int -ℤ a =
        wrap-InRange (max_int -ℤ a) (omega (arith, -ℤ_parts max_int a)) in
      rw (up, room)
        (if_exact _ (a +ℤ b)
          (λ t. let l = ltb-false _ _ t in omega (arith, -ℤ_parts max_int a, +ℤ_parts a b)))
  | inr down ↦
      let sign = leb-false _ _ down in
      let room : sub64 min_int a ≡ min_int -ℤ a =
        wrap-InRange (min_int -ℤ a) (omega (arith, -ℤ_parts min_int a)) in
      rw (down, room)
        (if_exact _ (a +ℤ b)
          (λ t. let l = ltb-false _ _ t in omega (arith, -ℤ_parts min_int a, +ℤ_parts a b)))
]

-- The difference of two int64 values is exact where it does not exceed the largest int64, or where
-- the second one is not negative.
pub int_sub-exact :
    (a b : ℤ)
    → InRange a
    → InRange b
    → (pos 0 ≤ℤ b) ⊎ (a -ℤ b ≤ℤ max_int)
    → int_sub a b ≡ maybe_int (a -ℤ b)
unfolding int_sub
int_sub-exact a b h k c = elim (Bool-cases (leb_ℤ (pos 0) b)) [
  | inl up ↦
      let sign = leb→le _ _ up in
      let room : add64 min_int b ≡ min_int +ℤ b =
        wrap-InRange (min_int +ℤ b) (omega (arith, +ℤ_parts min_int b)) in
      rw (up, room)
        (if_exact _ (a -ℤ b)
          (λ t. let l = ltb-false _ _ t in omega (arith, +ℤ_parts min_int b, -ℤ_parts a b)))
  | inr down ↦
      let sign = leb-false _ _ down in
      let bound : a -ℤ b ≤ℤ max_int = elim c [ inl up ↦ absurd (omega arith) | inr le ↦ le ] in
      rw down (if_exact _ (a -ℤ b) (λ t. omega (arith, -ℤ_parts a b)))
]

positive : (c : ℤ) → max_int <ℤ c → (n : ℕ) × (c ≡ pos n)
positive (pos n) h = (n, refl)
positive (negsuc n) h = absurd (omega arith)

wrap_above :
    (n : ℕ)
    → 0x7fff_ffff_ffff_ffff < n
    → n ≤ 0xffff_ffff_ffff_ffff
    → wrap (pos n) ≡ negsuc (0xffff_ffff_ffff_ffff - n)
unfolding wrap
wrap_above n h k = ground arith

sum_above :
    (n : ℕ)
    → n ≤ 0xffff_ffff_ffff_ffff
    → pos n ≡ negsuc (0xffff_ffff_ffff_ffff - n) +ℤ pos 0x1_0000_0000_0000_0000
unfolding ◌+ℤ◌
sum_above n k = ground arith

-- The difference of an int64 value and a negative one wraps around to a negative Int where it
-- exceeds the largest int64.
pub int_sub_wraps :
    (a b : ℤ)
    → InRange a
    → InRange b
    → max_int <ℤ a -ℤ b
    → (r : ℤ) × (int_sub a b ≡ int r) × (r <ℤ pos 0) × (a -ℤ b ≡ r +ℤ pos 0x1_0000_0000_0000_0000)
unfolding int_sub
int_sub_wraps a b h k over = elim (Bool-cases (leb_ℤ (pos 0) b)) [
  | inl up ↦ let sign = leb→le _ _ up in absurd (omega (arith, -ℤ_parts a b))
  | inr down ↦
      let sign = leb-false _ _ down in
      let room : add64 max_int b ≡ max_int +ℤ b =
        wrap-InRange (max_int +ℤ b) (omega (arith, +ℤ_parts max_int b)) in
      let (n, e) = positive (a -ℤ b) over in
      let low : max_int <ℤ pos n = rw e at over in
      let high : n ≤ 0xffff_ffff_ffff_ffff = omega (arith, rw e at (-ℤ_parts a b)) in
      let test : ltb_ℤ a (max_int +ℤ b) ≡ false =
        ltb_of_le _ _ (omega (arith, -ℤ_parts a b, +ℤ_parts max_int b)) in
      (
        negsuc (0xffff_ffff_ffff_ffff - n),
        rw (down, room, test, e) (ap int (wrap_above n (omega arith) high)),
        omega arith,
        e ∙ sum_above n high,
      )
]

pub eqb-eq : (a b : ℤ) → eqb_ℤ a b ≡ true → a ≡ b
eqb-eq a b h = ground arith

neg_min : int_neg min_int ≡ maybe_int (pos 0 -ℤ min_int)
unfolding int_neg maybe_int ◌-ℤ◌
neg_min = refl

-- Negation and absolute value are exact.
pub int_neg-exact : (a : ℤ) → InRange a → int_neg a ≡ maybe_int (pos 0 -ℤ a)
unfolding int_neg
int_neg-exact a h = elim (Bool-cases (eqb_ℤ a min_int)) [
  | inl e ↦ rw (eqb-eq a min_int e) neg_min
  | inr e ↦ rw e (fits (pos 0 -ℤ a) (ground (arith, -ℤ_parts (pos 0) a)))
]

pub int_abs-exact :
    (a : ℤ) → InRange a → int_abs a ≡ maybe_int (if ltb_ℤ a (pos 0) then pos 0 -ℤ a else a)
unfolding int_abs
int_abs-exact a h = elim (Bool-cases (eqb_ℤ a min_int)) [
  | inl e ↦ rw (eqb-eq a min_int e) neg_min
  | inr e ↦ elim (Bool-cases (ltb_ℤ a (pos 0))) [
    | inl t ↦
        let size = ltb→lt _ _ t in
        rw (e, t) (fits (pos 0 -ℤ a) (ground (arith, -ℤ_parts (pos 0) a)))
    | inr t ↦ rw (e, t) (sym (maybe_int-InRange a h))
  ]
]
