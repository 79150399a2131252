-- ===== src/Range/Faults.antt =====
-- py/range.go: a step of 0, and slices that go backwards.
use taipan.Prelude.{ℕ, zero, suc, ◌+◌, ◌<◌, ◌≡◌, refl, none, some, arith, ap, replicate, ◌∙◌, ◌∷◌}
use taipan.Prelude.Int.{pos, negsuc, wrap, mul64, add64_pos, wrap_pos, ◌-ℤ◌, ◌*ℤ◌}
use taipan.Exceptions.{ok}
use taipan.Slice.{object}
use taipan.Range.{Range, range_new, next, iter, compute_range_slice, with_length}
use taipan.Range.Items.{take_items, take_items-some}

range_new_panics : (a b : ℕ) → b < a → range_new (pos a) (pos b) (pos 0) ≡ none
unfolding range_new wrap ◌-ℤ◌
range_new_panics a b h = ground arith

range_new_empty :
    (a b : ℕ)
    → a < b
    → range_new (pos a) (pos b) (pos 0) ≡ some (with_length (pos a) (pos b) (pos 0) (pos 0))
unfolding range_new
range_new_empty a b h = ground arith

stays :
    (a b : ℕ) (r : Range)
    → r ≡ with_length (pos a) (pos b) (pos 0) (pos 0)
    → a < b
    → a < 0x8000_0000_0000_0000
    → next (record { range = r; index = pos a }) ≡ some (pos a, record { range = r; index = pos a })
unfolding next
stays a b r e h f = rw e (ground (arith, add64_pos a 0))

repeats :
    (n a b : ℕ) (r : Range)
    → r ≡ with_length (pos a) (pos b) (pos 0) (pos 0)
    → a < b
    → a < 0x8000_0000_0000_0000
    → take_items n (record { range = r; index = pos a }) ≡ replicate n (pos a)
repeats zero a b r e h f = unfold take_items in refl
repeats (suc n) a b r e h f =
    take_items-some n _ _ (pos a) (stays a b r e h f) ∙ ap (◌∷◌ (pos a)) (repeats n a b r e h f)

-- A step of 0 is not refused. From `b` down to `a`, with `a < b`, building the range divides by
-- zero; from `a` up to `b` it gives a range of length 0 whose iterator gives `a` any number of
-- times without stopping.
pub range_zero_step :
    (a b n : ℕ)
    → a < b
    → a < 0x8000_0000_0000_0000
    → (range_new (pos b) (pos a) (pos 0) ≡ none)
      × ((r : Range) × (range_new (pos a) (pos b) (pos 0) ≡ some r)
          × (r.length ≡ pos 0)
          × (take_items n (iter r) ≡ replicate n (pos a)))
unfolding iter
range_zero_step a b n h f = (
  range_new_panics b a h,
  (
    with_length (pos a) (pos b) (pos 0) (pos 0),
    range_new_empty a b h,
    refl,
    repeats n a b _ refl h f,
  ),
)

mul64_one : (k : ℕ) → k < 0x8000_0000_0000_0000 → mul64 (pos k) (pos 1) ≡ pos k
unfolding ◌*ℤ◌
mul64_one k h = ground (arith, wrap_pos k)

mul64_back : mul64 (negsuc 0) (pos 1) ≡ negsuc 0
unfolding wrap ◌*ℤ◌
mul64_back = refl

-- Slicing `range(n)` from `i` back to `j` by -1, for `j < i < n`, gives a range of length 0,
-- although `i - j` items lie between.
pub backward_slice_empty :
    (n i j : ℕ)
    → j < i
    → i < n
    → n < 0x7fff_ffff_ffff_ffff
    → (r : Range) × (compute_range_slice (with_length (pos 0) (pos n) (pos 1) (pos n)) (record {
      start = object (ok (pos i));
      stop = object (ok (pos j));
      step = object (ok (negsuc 0));
    })
        ≡ ok (some r))
      × (r.length ≡ pos 0)
unfolding compute_range_slice range_new
backward_slice_empty n i j h k f = (
  with_length (pos (j + 1)) (pos (i + 1)) (negsuc 0) (pos 0),
  ground (
    arith,
    mul64_one i,
    mul64_one j,
    mul64_back,
    add64_pos 0 i,
    add64_pos 0 j,
    add64_pos i 1,
    add64_pos j 1,
  ),
  refl,
)
