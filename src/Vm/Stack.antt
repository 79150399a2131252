-- ===== src/Vm/Stack.antt =====
-- vm/eval.go: the opcodes that work on the stack, the blocks and the instruction pointer alone.
use mathlib.Core.Option
use taipan.Prelude.{
  ℕ, ◌-◌, ◌%◌, true, false, Option, none, some, List, [], ◌∷◌, length, if◌then◌else◌,
}
use taipan.Prelude.Int.{ℤ, pos, negsuc}
use taipan.Exceptions.{exception, system_error}
use taipan.Vm.Unwind.{unwind_except_handler, as_traceback}
use taipan.Vm.State.{
  Object, none_object, int, type_object, TypeObject, TryBlock, setup_loop, setup_except,
  setup_finally, except_handler, Vm, Why, why_not, why_exception, why_return, why_break,
  why_continue, why_yield, why_silenced, why_of_code, push_block, pop_block, jump_by, Effect, done,
  error, panic, or_panic,
}

-- A function on the stack; an index below it panics.
abbrev pub on_stack : (List Object → Option (List Object)) → Vm → Effect
on_stack f vm = or_panic (Option.map (λ s. record vm { stack = s }) (f vm.stack))

abbrev pub drop_top : List Object → Option (List Object)
drop_top (x ∷ s) = some s
drop_top [] = none

abbrev pub rot_two : List Object → Option (List Object)
rot_two (x ∷ y ∷ s) = some (y ∷ x ∷ s)
rot_two _ = none

abbrev pub rot_three : List Object → Option (List Object)
rot_three (x ∷ y ∷ z ∷ s) = some (y ∷ z ∷ x ∷ s)
rot_three _ = none

abbrev pub dup_top : List Object → Option (List Object)
dup_top (x ∷ s) = some (x ∷ x ∷ s)
dup_top [] = none

abbrev dup_top_two : List Object → Option (List Object)
dup_top_two (x ∷ y ∷ s) = some (x ∷ y ∷ x ∷ y ∷ s)
dup_top_two _ = none

unfoldable pub do_illegal : Vm → Effect
do_illegal vm = error (exception system_error "Illegal opcode") vm

unfoldable pub do_nop : Vm → Effect
do_nop vm = done vm

unfoldable pub do_pop_top : Vm → Effect
do_pop_top vm = on_stack drop_top vm

unfoldable pub do_rot_two : Vm → Effect
do_rot_two vm = on_stack rot_two vm

unfoldable pub do_rot_three : Vm → Effect
do_rot_three vm = on_stack rot_three vm

unfoldable pub do_dup_top : Vm → Effect
do_dup_top vm = on_stack dup_top vm

unfoldable pub do_dup_top_two : Vm → Effect
do_dup_top_two vm = on_stack dup_top_two vm

unfoldable pub do_break_loop : Vm → Effect
do_break_loop vm = done (record vm { why = why_break })

unfoldable pub do_continue_loop : ℤ → Vm → Effect
do_continue_loop target vm = done (record vm { retval = int target; why = why_continue })

-- `vm.POP()`
abbrev popping : (Object → Vm → Effect) → List Object → Vm → Effect
popping f [] vm = panic
popping f (x ∷ s) vm = f x (record vm { stack = s })

unfoldable pub do_return_value : Vm → Effect
do_return_value vm =
    popping (λ x (vm' : Vm). done (record vm' { retval = x; yielded = false; why = why_return }))
      vm.stack vm

unfoldable pub do_yield_value : Vm → Effect
do_yield_value vm =
    popping (λ x (vm' : Vm). done (record vm' { retval = x; yielded = true; why = why_yield }))
      vm.stack vm

unfoldable pub do_pop_block : Vm → Effect
do_pop_block vm = or_panic (Option.map (λ p. p.1) (pop_block vm.blocks vm))

-- Behind `frame.PopBlock()`, whose panic comes first.
leave_handler : TryBlock → Vm → Effect
leave_handler b vm = elim b.type [
  | except_handler ↦ or_panic (unwind_except_handler b vm)
  | _ ↦ error (exception system_error "popped block is not an except handler") vm
]

unfoldable pub do_pop_except : Vm → Effect
unfolding leave_handler
do_pop_except vm = elim (pop_block vm.blocks vm) [ none ↦ panic | some p ↦ leave_handler p.0 p.1 ]

-- `whySilenced`: the handler's block is unwound by hand.
silence_handler : TryBlock → Vm → Effect
silence_handler b vm = elim b.type [
  | except_handler ↦
      or_panic
        (Option.map (λ (vm' : Vm). record vm' { why = why_not }) (unwind_except_handler b vm))
  | _ ↦ panic
]

silenced : Vm → Effect
unfolding silence_handler
silenced vm = elim (pop_block vm.blocks vm) [ none ↦ panic | some p ↦ silence_handler p.0 p.1 ]

-- The switch on the status that a `finally` clause takes up again.
resume : Why → Vm → Effect
unfolding silenced
resume why_yield vm = panic
resume why_exception vm = panic
resume why_return vm =
    popping (λ x (vm' : Vm). done (record vm' { retval = x; why = why_return })) vm.stack vm
resume why_continue vm =
    popping (λ x (vm' : Vm). done (record vm' { retval = x; why = why_continue })) vm.stack vm
resume why_silenced vm = silenced vm
resume w vm = done (record vm { why = w })

-- The byte of an integer.
abbrev pub low_byte : ℤ → ℕ
low_byte (pos n) = n % 256
low_byte (negsuc n) = 255 - n % 256

-- The exception is raised again: its type is on top, its value and its traceback below.
raise_again : TypeObject → List Object → Vm → Effect
raise_again t (w ∷ u ∷ s) vm = done (record vm {
  stack = s;
  curexc = record { type = some t; value = w; traceback = as_traceback u };
  why = why_exception;
})
raise_again t _ vm = panic

bad_finally : Vm → Effect
bad_finally vm = error (exception system_error "'finally' pops bad exception %#v") vm

finally_value : Object → Vm → Effect
unfolding resume raise_again bad_finally why_of_code
finally_value none_object vm = done vm
finally_value (int n) vm = resume (why_of_code (low_byte n)) vm
finally_value (type_object t) vm =
    if t.is_exception_class then raise_again t vm.stack vm else bad_finally vm
finally_value v vm = bad_finally vm

unfoldable pub do_end_finally : Vm → Effect
unfolding finally_value
do_end_finally vm = popping finally_value vm.stack vm

unfoldable pub do_setup_loop : ℤ → Vm → Effect
do_setup_loop delta vm = done (push_block setup_loop (jump_by delta vm) (length vm.stack) vm)

unfoldable pub do_setup_except : ℤ → Vm → Effect
do_setup_except delta vm = done (push_block setup_except (jump_by delta vm) (length vm.stack) vm)

unfoldable pub do_setup_finally : ℤ → Vm → Effect
do_setup_finally delta vm = done (push_block setup_finally (jump_by delta vm) (length vm.stack) vm)
