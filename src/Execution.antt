-- ===== src/Execution.antt =====
-- py/execution.go: the limits of an execution and the counters that enforce them. A Go `int` is a
-- ℤ with 64-bit wrap-around. What `HostContext.Err()` answers at a call is an argument of the
-- operation: the host's context is not part of the program. A method on a nil `*ExecutionState`
-- returns at once; `on_state` is that test.
pub mod Budget
pub mod Trace
mod Tests
use taipan.Prelude.{
  ◌≡◌, refl, String, Bool, true, false, ◌&&◌, ◌||◌, not, Option, none, some, if◌then◌else◌,
}
use taipan.Prelude.Int.{ℤ, pos, add64, sub64, ltb_ℤ, eqb_ℤ}
use taipan.Exceptions.{Exception, exception, interrupted_error, timeout_error, runtime_error}

-- An error of `context.Context`.
pub data HostError : Type 0 where
  canceled deadline_exceeded : HostError
  other_error : String → HostError

pub data Error : Type 0 where
  raised : Exception → Error
  host : HostError → Error

pub record ExecutionLimits : Type 0 where
  pub max_instructions : ℤ
  pub max_call_depth : ℤ
  pub max_output_bytes : ℤ

pub record ExecutionState : Type 0 where
  pub host_context : Bool
  pub limits : ExecutionLimits
  pub instruction_count : ℤ
  pub call_depth : ℤ
  pub output_bytes : ℤ

unfoldable pub exception_from_context_error : HostError → Option Exception
exception_from_context_error canceled = some (exception interrupted_error "execution interrupted")
exception_from_context_error deadline_exceeded =
    some (exception timeout_error "execution deadline exceeded")
exception_from_context_error (other_error m) = none

abbrev pub context_error : HostError → Error
unfolding exception_from_context_error
context_error e = elim (exception_from_context_error e) [ some exc ↦ raised exc | none ↦ host e ]

-- `host_context` says whether `HostContext` is set.
unfoldable pub check_context : Option HostError → ExecutionState → Option Error
unfolding exception_from_context_error
check_context none s = none
check_context (some e) s = if not s.host_context then none else some (context_error e)

abbrev pub instruction_limit : Error
instruction_limit = raised (exception runtime_error "instruction limit exceeded (%d)")

abbrev pub call_depth_limit : Error
call_depth_limit = raised (exception runtime_error "call depth limit exceeded (%d)")

abbrev pub output_limit : Error
output_limit = raised (exception runtime_error "output limit exceeded (%d bytes)")

-- A state and the error returned, if any.
abbrev pub Outcome : Type 0
Outcome = ExecutionState × Option Error

-- The early return `if err := s.CheckContext(); err != nil`.
abbrev pub unless_cancelled : Option Error → ExecutionState → Outcome → Outcome
unless_cancelled (some e) s rest = (s, some e)
unless_cancelled none s rest = rest

-- The next step is taken only when the last one returned no error.
abbrev pub and_then : Outcome → (ExecutionState → Outcome) → Outcome
and_then (s, none) next = next s
and_then (s, some e) next = (s, some e)

abbrev pub exceeded : ℤ → ℤ → Bool
exceeded limit n = ltb_ℤ (pos 0) limit && ltb_ℤ limit n

unfoldable pub before_opcode : Option HostError → ExecutionState → Outcome
unfolding check_context
before_opcode answer s =
    let counted = record s { instruction_count = add64 s.instruction_count (pos 1) } in
    unless_cancelled (check_context answer s) s (
      if exceeded s.limits.max_instructions counted.instruction_count
      then (counted, some instruction_limit)
      else (counted, none))

unfoldable pub enter_call : Option HostError → ExecutionState → Outcome
unfolding check_context
enter_call answer s =
    let entered = record s { call_depth = add64 s.call_depth (pos 1) } in
    unless_cancelled (check_context answer s) s (
      if exceeded s.limits.max_call_depth entered.call_depth
      then (record entered { call_depth = sub64 entered.call_depth (pos 1) }, some call_depth_limit)
      else (entered, none))

unfoldable pub exit_call : ExecutionState → ExecutionState
exit_call s =
    if eqb_ℤ s.call_depth (pos 0) then s else record s { call_depth = sub64 s.call_depth (pos 1) }

unfoldable pub restore_call_depth : ℤ → ExecutionState → ExecutionState
restore_call_depth depth s = record s { call_depth = if ltb_ℤ depth (pos 0) then pos 0 else depth }

unfoldable pub reserve_output : Option HostError → ℤ → ExecutionState → Outcome
unfolding check_context
reserve_output answer n s = unless_cancelled (check_context answer s) s (
    if exceeded s.limits.max_output_bytes (add64 s.output_bytes n)
    then (s, some output_limit)
    else (record s { output_bytes = add64 s.output_bytes n }, none))

-- The test `s == nil` that each method makes first.
unfoldable pub on_state :
    (ExecutionState → Outcome) → Option ExecutionState → Option ExecutionState × Option Error
on_state f none = (none, none)
on_state f (some s) = (some (f s).0, (f s).1)
