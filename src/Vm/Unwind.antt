-- ===== src/Vm/Unwind.antt =====
-- vm/eval.go: `UnwindBlock`, `UnwindExceptHandler` and the unwinding loop of `runFrame`.
pub mod Cut
pub mod Handlers
pub mod Nested
use mathlib.Core.Option
use taipan.Prelude.{
  ℕ, ◌+◌, ◌-◌, Bool, true, false, ◌&&◌, ◌||◌, not, Option, none, some, List, [], ◌∷◌, length, drop,
  ltb, if◌then◌else◌,
}
use taipan.Prelude.Int.{ℤ, pos, negsuc, wrap32}
use taipan.Vm.State.{
  Object, nil_object, none_object, int, type_object, traceback, value, TypeObject, ExceptionInfo,
  TryBlock, TryBlockType, setup_loop, setup_except, setup_finally, except_handler, Vm, Why, why_not,
  why_exception, why_return, why_break, why_continue, why_code, push_block,
}

-- The stack cut down to `level` elements: `frame.Stack[:level]`.
abbrev pub cut : ℕ → List Object → List Object
cut level stack = drop (length stack - level) stack

unfoldable pub unwind_block : TryBlock → Vm → Vm
unwind_block b vm =
    if ltb b.level (length vm.stack) then record vm { stack = cut b.level vm.stack } else vm

-- `x, _ = o.(*py.Type)` and `x, _ = o.(*py.Traceback)`
abbrev pub as_type : Object → Option TypeObject
as_type (type_object t) = some t
as_type _ = none

abbrev pub as_traceback : Object → Option ℕ
as_traceback (traceback t) = t
as_traceback _ = none

-- The three values that restore the exception state.
restore_exc : List Object → Vm → Option Vm
restore_exc (t ∷ v ∷ tb ∷ rest) vm = some (record vm {
  stack = rest;
  exc = record { type = as_type t; value = v; traceback = as_traceback tb };
})
restore_exc _ vm = none

-- `none` is the panic "Couldn't find traceback on stack".
unfoldable pub unwind_except_handler : TryBlock → Vm → Option Vm
unfolding restore_exc
unwind_except_handler b vm =
    if ltb (length vm.stack) (b.level + 3)
    then none
    else restore_exc (cut (b.level + 3) vm.stack) vm

abbrev type_or_none : Option TypeObject → Object
type_or_none none = none_object
type_or_none (some t) = type_object t

abbrev pub no_exception : ExceptionInfo
no_exception = record { type = none; value = nil_object; traceback = none }

-- Control goes to an `except` or `finally` handler with an exception.
abbrev pub enter_handler : TryBlock → Vm → Vm
enter_handler b vm = record vm {
  blocks =
      (record { type = except_handler; handler = negsuc 0; level = length vm.stack }) ∷ vm.blocks;
  stack =
      type_or_none vm.curexc.type
      ∷ vm.curexc.value
      ∷ traceback vm.curexc.traceback
      ∷ type_or_none vm.exc.type
      ∷ vm.exc.value
      ∷ traceback vm.exc.traceback
      ∷ vm.stack;
  exc = vm.curexc;
  curexc = no_exception;
  why = why_not;
  lasti = b.handler;
}

abbrev pub carries_value : Why → Bool
carries_value why_return = true
carries_value why_continue = true
carries_value _ = false

-- Control goes to a `finally` handler with a status to take up again.
abbrev pub enter_finally : TryBlock → Vm → Vm
enter_finally b vm = record vm {
  stack =
      int (pos (why_code vm.why))
      ∷ (if carries_value vm.why then vm.retval ∷ vm.stack else vm.stack);
  why = why_not;
  lasti = b.handler;
}

-- `vm.retval.(py.Int)` panics on another object.
abbrev continue_loop : Object → Vm → Option Vm
continue_loop (int dest) vm = some (record vm { why = why_not; lasti = wrap32 dest })
continue_loop _ vm = none

abbrev is_not : Why → Bool
is_not why_not = true
is_not _ = false

abbrev is_exception : Why → Bool
is_exception why_exception = true
is_exception _ = false

abbrev is_break : Why → Bool
is_break why_break = true
is_break _ = false

abbrev is_continue : Why → Bool
is_continue why_continue = true
is_continue _ = false

abbrev is_loop : TryBlockType → Bool
is_loop setup_loop = true
is_loop _ = false

abbrev is_except : TryBlockType → Bool
is_except setup_except = true
is_except _ = false

abbrev is_finally : TryBlockType → Bool
is_finally setup_finally = true
is_finally _ = false

abbrev is_handler : TryBlockType → Bool
is_handler except_handler = true
is_handler _ = false

-- The loop `for vm.why != whyNot && frame.Block != nil`; the list is `vm.blocks`. `none` is a panic.
unfoldable pub unwind_loop : List TryBlock → Vm → Option Vm
unfolding unwind_block unwind_except_handler
unwind_loop [] vm = some vm
unwind_loop (b ∷ rest) vm =
    let popped = record vm { blocks = rest } in
    let out_of_handler =
      Option.bind (unwind_except_handler b popped) (λ vm'. unwind_loop rest vm') in
    let unwound = unwind_block b popped in
    let outwards = unwind_loop rest unwound in
    if is_not vm.why
    then some vm
    else if is_loop b.type && is_continue vm.why
    then continue_loop vm.retval vm
    else if is_handler b.type
    then out_of_handler
    else if is_loop b.type && is_break vm.why
    then some (record unwound { why = why_not; lasti = b.handler })
    else if is_exception vm.why && (is_except b.type || is_finally b.type)
    then some (enter_handler b unwound)
    else if is_finally b.type
    then some (enter_finally b unwound)
    else outwards

unfoldable pub unwind : Vm → Option Vm
unfolding unwind_loop
unwind vm = unwind_loop vm.blocks vm
