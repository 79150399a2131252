-- ===== src/Range/Tests.antt =====
-- py/range.go: ranges at concrete ends.
use taipan.Prelude.{◌≡◌, refl, some, arith, map}
use taipan.Prelude.Int.{pos, wrap, quot, ◌+ℤ◌, ◌-ℤ◌}
use taipan.Exceptions.{ok, err, exception, index_error}
use taipan.Range.{Range, range_new, iter, get_item, with_length}
use taipan.Range.Items.{take_items, indexed_items, take_items-range_new}

-- range(2, 9, 3)
abbrev two_five_eight : Range
two_five_eight = with_length (pos 2) (pos 9) (pos 3) (pos 3)

two_five_eight_new : range_new (pos 2) (pos 9) (pos 3) ≡ some two_five_eight
unfolding range_new wrap quot ◌+ℤ◌ ◌-ℤ◌
two_five_eight_new = refl

take_items-range_new_example :
    (two_five_eight.length ≡ pos 3)
    × (map ok (take_items 4 (iter two_five_eight)) ≡ indexed_items two_five_eight 0 3)
    × (get_item two_five_eight (pos 3)
        ≡ err (exception index_error "range object index out of range"))
take_items-range_new_example =
    take_items-range_new 2 9 3 4 3 {r = two_five_eight} (omega arith) (omega arith)
      two_five_eight_new (omega arith) (omega arith)

abbrev near_end : Range
near_end = with_length (pos 0) (pos 0x7fff_ffff_ffff_fffe) (pos 0x7000_0000_0000_0000) (pos 2)
