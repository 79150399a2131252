-- ===== src/Execution/Tests.antt =====
-- py/execution.go: limits and states that meet the theorems' conditions.
use taipan.Prelude.{◌≡◌, refl, true, none, some, List, [], ◌∷◌, arith}
use taipan.Prelude.Int.{pos, wrap, ◌+ℤ◌}
use taipan.Execution.{
  ExecutionLimits, ExecutionState, enter_call, check_context, canceled, instruction_limit,
  call_depth_limit,
}
use taipan.Execution.Budget.{run_opcodes, run_opcodes_budget}
use taipan.Execution.Trace.{
  Event, opcode, enter, exit, restore, write, apply_events, IsBounded, apply_events-IsBounded,
}

abbrev limits : ExecutionLimits
limits = record { max_instructions = pos 3; max_call_depth = pos 2; max_output_bytes = pos 10 }

abbrev start : ExecutionState
start = record {
  host_context = true;
  limits = limits;
  instruction_count = pos 0;
  call_depth = pos 0;
  output_bytes = pos 0;
}

run_opcodes_budget_example :
    run_opcodes 5 start ≡ (record start { instruction_count = pos 4 }, some instruction_limit)
run_opcodes_budget_example =
    run_opcodes_budget 5 0 3 start refl refl (omega arith) (omega arith) (omega arith)

start-IsBounded : IsBounded limits start
start-IsBounded = ground arith

abbrev events : List Event
events =
    enter none
    ∷ opcode none
    ∷ enter none
    ∷ enter none
    ∷ write none 7
    ∷ write (some canceled) 2
    ∷ exit
    ∷ write none 5
    ∷ restore 1
    ∷ []

apply_events-IsBounded_example : IsBounded limits (apply_events events start)
apply_events-IsBounded_example =
    apply_events-IsBounded limits events start (omega arith) (omega arith) start-IsBounded

third_call_refused :
    (enter_call none (record start { call_depth = pos 2 })).1 ≡ some call_depth_limit
unfolding enter_call wrap ◌+ℤ◌ check_context
third_call_refused = refl
