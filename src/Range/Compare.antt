-- ===== src/Range/Compare.antt =====
-- py/range.go: comparing ranges.
use taipan.Prelude.{◌≡◌, ◌≢◌, true, false, not, arith}
use taipan.Prelude.Int.{pos}
use taipan.Range.{Range, range_eq, range_ne}

-- `!=` is the negation of `==` on every pair of ranges.
pub range_ne-range_eq : (a b : Range) → range_ne a b ≡ not (range_eq a b)
unfolding range_eq range_ne
range_ne-range_eq a b = ground arith

-- Two ranges of the same positive length and the same start, the left one with step 1 and the
-- right one with another step, are equal from the left and unequal from the right.
pub range_eq_asymmetric :
    (a b : Range)
    → a.length ≡ b.length
    → b.length ≢ pos 0
    → a.start ≡ b.start
    → a.step ≡ pos 1
    → b.step ≢ pos 1
    → (range_eq a b ≡ true) × (range_eq b a ≡ false)
unfolding range_eq
range_eq_asymmetric a b l z s one other = ground arith
