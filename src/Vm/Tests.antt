-- ===== src/Vm/Tests.antt =====
-- vm/eval.go: a frame inside `try: for ...`, its exception, and the ways out of it.
use taipan.Prelude.{◌≡◌, refl, inl, inr, none, some, [], ◌∷◌, true, false, arith}
use taipan.Prelude.Int.{pos, negsuc}
use taipan.Vm.State.{
  Vm, Object, value, type_object, traceback, none_object, nil_object, except_handler, why_not,
  TryBlock, setup_loop, setup_except, why_exception, why_return, done,
}
use taipan.Vm.Unwind.{unwind, enter_handler, enter_finally, no_exception}
use taipan.Vm.Unwind.Handlers.{
  unwind-exception, do_pop_except-enter_handler, do_end_finally-enter_finally,
}
use taipan.Vm.Unwind.Nested.{Settles, unwind-Settles}
use taipan.Vm.Stack.{do_end_finally, do_pop_except}
use taipan.Vm.Jumps.{NextResult, failed, external_call, stop_iteration}

abbrev loop_block : TryBlock
loop_block = record { type = setup_loop; handler = pos 40; level = 2 }

abbrev except_block : TryBlock
except_block = record { type = setup_except; handler = pos 50; level = 1 }

abbrev raised : Vm
raised = record {
  lasti = pos 20;
  stack = value 3 ∷ value 2 ∷ value 1 ∷ [];
  blocks = loop_block ∷ except_block ∷ [];
  yielded = false;
  extended = false;
  ext = pos 0;
  retval = value 9;
  why = why_exception;
  curexc = record {
    type = some (record { id = 7; is_exception_class = true });
    value = value 8;
    traceback = none;
  };
  exc = no_exception;
}

unwind-exception_example :
    unwind raised
    ≡ some (record raised {
      blocks = (record { type = except_handler; handler = negsuc 0; level = 1 }) ∷ [];
      stack =
          type_object (record { id = 7; is_exception_class = true })
          ∷ value 8
          ∷ traceback none
          ∷ none_object
          ∷ nil_object
          ∷ traceback none
          ∷ value 1
          ∷ [];
      exc = raised.curexc;
      curexc = no_exception;
      why = why_not;
      lasti = pos 50;
    })
unwind-exception_example =
    unwind-exception (loop_block ∷ []) [] except_block raised refl refl ((refl, omega arith), tt)
      (inl refl)

unwind-Settles_example : Settles (unwind raised)
unwind-Settles_example = unwind-Settles raised (omega arith) (λ e. cc)

-- The handler's body leaves a value and has another exception in hand.
abbrev handled : Vm
handled = record (enter_handler except_block raised) {
  lasti = pos 60;
  stack = value 6 ∷ (enter_handler except_block raised).stack;
  exc = no_exception;
}

do_pop_except-enter_handler_example :
    do_pop_except handled
    ≡ done (record handled { stack = raised.stack; exc = raised.exc; blocks = raised.blocks })
do_pop_except-enter_handler_example =
    do_pop_except-enter_handler except_block raised handled (value 6 ∷ []) refl refl

abbrev returning : Vm
returning = record raised { why = why_return }

-- The clause puts another value in the place of the one that is returned.
abbrev overwritten : Vm
overwritten = record (enter_finally except_block returning) { lasti = pos 60; retval = value 5 }

do_end_finally-enter_finally_example :
    do_end_finally overwritten
    ≡ done (record overwritten { stack = raised.stack; why = why_return; retval = value 9 })
do_end_finally-enter_finally_example =
    do_end_finally-enter_finally except_block returning overwritten (inr (inl refl)) refl

abbrev awaiting : Object → NextResult
awaiting x = failed external_call

abbrev finished : Object → NextResult
finished x = failed stop_iteration
