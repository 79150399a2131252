-- ===== src/Slice/Tests.antt =====
-- py/slice.go: slices at concrete bounds.
use taipan.Prelude.{◌≡◌, refl, arith}
use taipan.Prelude.Int.{pos, negsuc, wrap, quot, ◌+ℤ◌, ◌-ℤ◌}
use taipan.Exceptions.{ok, err, exception, value_error}
use taipan.Slice.{Slice, none_bound, object, Indices, get_indices}
use taipan.Slice.Bounds.{IsCovered, get_indices-IsCovered}

-- [::-2]
abbrev backward : Slice
backward = record { start = none_bound; stop = none_bound; step = object (ok (negsuc 1)) }

abbrev backward_indices : Indices
backward_indices = record { start = pos 4; stop = negsuc 0; step = negsuc 1; slicelength = pos 3 }

backward_of_five : get_indices backward (pos 5) ≡ ok backward_indices
unfolding get_indices wrap quot ◌+ℤ◌ ◌-ℤ◌
backward_of_five = refl

zero_step :
    get_indices (record backward { step = object (ok (pos 0)) }) (pos 5)
    ≡ err (exception value_error "slice step cannot be zero")
unfolding get_indices wrap
zero_step = refl

get_indices-IsCovered_example : IsCovered 5 backward_indices
get_indices-IsCovered_example =
    get_indices-IsCovered backward 5 {ix = backward_indices} (omega arith) tt tt (omega arith)
      backward_of_five
