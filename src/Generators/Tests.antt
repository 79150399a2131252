-- ===== src/Generators/Tests.antt =====
-- py/generator.go: generators on small frames.
use taipan.Prelude.{ℕ, zero, suc, Bool, true, ◌≡◌, refl, List, []}
use taipan.Exceptions.{Result, ok, err, Exception, exception, value_error}
use taipan.Generators.{Value, object, Frame, generator, send, next}

abbrev frame : ℕ → Bool → List Value → ℕ → Frame ℕ
frame at y s n = record { lasti = at; yielded = y; stack = s; rest = n }

abbrev raised : Exception
raised = exception value_error ""

-- Raises, and would yield 9 behind that.
abbrev raising : ℕ → Result Value × Frame ℕ
raising zero = (err raised, frame 6 true [] 1)
raising (suc n) = (ok (object 9), frame 9 true [] 2)

abbrev run_raising : Frame ℕ → Result Value × Frame ℕ
run_raising f = raising f.rest

-- It goes on with 9 where Python raises StopIteration.
resumed :
    (next run_raising ((next run_raising (generator (frame 3 true [] 0))).1)).0 ≡ ok (object 9)
unfolding next send
resumed = refl
