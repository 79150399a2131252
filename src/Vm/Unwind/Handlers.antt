-- ===== src/Vm/Unwind/Handlers.antt =====
-- vm/eval.go: where the unwinding loop stops, and what the handlers find and restore.
use taipan.Prelude.{
  ℕ, ◌+◌, ◌≤◌, ◌≡◌, ◌⊎◌, inl, inr, refl, sym, ap, ◌∙◌, Option, none, some, List, [], ◌∷◌, ◌++◌,
  length, arith, length-append, append_assoc,
}
use taipan.Prelude.Int.{negsuc}
use taipan.Vm.Stack.{do_end_finally, do_pop_except}
use taipan.Vm.State.{
  Object, Vm, TypeObject, TryBlock, TryBlockType, setup_loop, setup_except, setup_finally,
  except_handler, why_exception, why_return, why_break, why_continue, Why, why_not, done, traceback,
  or_panic,
}
use taipan.Vm.Unwind.{
  unwind, unwind_loop, unwind_block, unwind_except_handler, enter_handler, enter_finally, cut,
  as_type, as_traceback, type_or_none, no_exception,
}
use taipan.Vm.Unwind.Cut.{cut-cut, cut-append, cut_high}
use native.Mathlib.Decide.{dec_le}

-- A block that does not stop an exception, above the level `n`.
abbrev pub PassesException : ℕ → TryBlock → Type 0
PassesException n b = (b.type ≡ setup_loop) × (n ≤ b.level)

abbrev pub AllPass : ℕ → List TryBlock → Type 0
AllPass n [] = Unit
AllPass n (b ∷ bs) = PassesException n b × AllPass n bs

abbrev Stops : TryBlockType → Type 0
Stops t = (t ≡ setup_except) ⊎ (t ≡ setup_finally)

-- `UnwindBlock` cuts the stack to the block's level, whatever its height.
unwind_block-cut :
    (b : TryBlock) (vm : Vm) → unwind_block b vm ≡ record vm { stack = cut b.level vm.stack }
unfolding unwind_block
unwind_block-cut b vm = ground (arith, cut_high b.level vm.stack)

cut_twice : (m n : ℕ) (s : List Object) → m ≤ n → cut m (cut n s) ≡ cut m s
cut_twice m n s h = elim (dec_le n (length s)) [
  | yes k ↦ cut-cut m n s h k
  | no k ↦ ap (cut m) (cut_high n s (omega arith))
]

abbrev at_handler : TryBlock → List TryBlock → Vm → Vm
at_handler b rest vm = record vm { blocks = rest; stack = cut b.level vm.stack }

-- One block of each kind under an exception.
exception_loop :
    (c : TryBlock) (bs : List TryBlock) (vm : Vm)
    → vm.why ≡ why_exception
    → c.type ≡ setup_loop
    → unwind_loop (c ∷ bs) vm ≡ unwind_loop bs (at_handler c bs vm)
unfolding unwind_loop
exception_loop c bs vm w t = ground (arith, cut_high c.level vm.stack)

exception_stops :
    (b : TryBlock) (bs : List TryBlock) (vm : Vm)
    → vm.why ≡ why_exception
    → Stops b.type
    → unwind_loop (b ∷ bs) vm ≡ some (enter_handler b (at_handler b bs vm))
unfolding unwind_loop
exception_stops b bs vm w (inl t) = ground (arith, cut_high b.level vm.stack)
exception_stops b bs vm w (inr t) = ground (arith, cut_high b.level vm.stack)

exception_outwards :
    (n : ℕ) (loops rest : List TryBlock) (b : TryBlock) (vm : Vm)
    → vm.why ≡ why_exception
    → AllPass n loops
    → b.level ≤ n
    → Stops b.type
    → unwind_loop (loops ++ b ∷ rest) vm ≡ some (enter_handler b (at_handler b rest vm))
exception_outwards n [] rest b vm w p l s = exception_stops b rest vm w s
exception_outwards n (c ∷ cs) rest b vm w p l s =
    exception_loop c (cs ++ b ∷ rest) vm w p.0.0
    ∙ exception_outwards n cs rest b (at_handler c (cs ++ b ∷ rest) vm) w p.1 l s
    ∙ ap (λ (t : List Object). some (enter_handler b (record vm { blocks = rest; stack = t })))
        (cut_twice b.level c.level vm.stack (omega (arith, p.0.1)))

-- Under an exception the unwinding passes over the loops inside and stops at the innermost `try`
-- block. It continues at that block's handler with no reason to unwind. The stack is cut to the
-- block's level, whatever the loops left on it, below six values: the type, value and traceback of
-- the exception, and under them those of the exception that was being handled. The raised exception
-- is the one being handled now. A handler block at the level of the cut stack stands on the blocks
-- around the `try`. The loops' levels are not below the block's.
pub unwind-exception :
    (loops rest : List TryBlock) (b : TryBlock) (vm : Vm)
    → vm.blocks ≡ loops ++ b ∷ rest
    → vm.why ≡ why_exception
    → AllPass b.level loops
    → Stops b.type
    → unwind vm
      ≡ some (record vm {
        blocks =
            (record {
              type = except_handler;
              handler = negsuc 0;
              level = length (cut b.level vm.stack);
            })
            ∷ rest;
        stack =
            type_or_none vm.curexc.type
            ∷ vm.curexc.value
            ∷ traceback vm.curexc.traceback
            ∷ type_or_none vm.exc.type
            ∷ vm.exc.value
            ∷ traceback vm.exc.traceback
            ∷ cut b.level vm.stack;
        exc = vm.curexc;
        curexc = no_exception;
        why = why_not;
        lasti = b.handler;
      })
unfolding unwind
unwind-exception loops rest b vm e w p s =
    ap (λ (bs : List TryBlock). unwind_loop bs vm) e
    ∙ exception_outwards b.level loops rest b vm w p (omega arith) s

abbrev entered : Vm → TryBlock
entered vm = record { type = except_handler; handler = negsuc 0; level = length vm.stack }

abbrev restored : Object → Object → Object → List Object → Vm → Vm
restored t v tb low vm = record vm {
  stack = low;
  exc = record { type = as_type t; value = v; traceback = as_traceback tb };
}

cut_to : (n : ℕ) (high low : List Object) → length low ≡ n → cut n (high ++ low) ≡ low
cut_to n high low e = rw (← e) (cut-append high low)

unwind_except_handler_lem :
    (c : TryBlock) (vm : Vm) (high low : List Object) (t v tb : Object)
    → c.level ≡ length low
    → vm.stack ≡ high ++ (t ∷ v ∷ tb ∷ low)
    → unwind_except_handler c vm ≡ some (restored t v tb low vm)
unfolding unwind_except_handler
unwind_except_handler_lem c vm high low t v tb l e =
    ground
      (arith, cut_to (c.level + 3) high (t ∷ v ∷ tb ∷ low), length-append high (t ∷ v ∷ tb ∷ low))

type_or_none_back : (t : Option TypeObject) → as_type (type_or_none t) ≡ t
type_or_none_back none = refl
type_or_none_back (some t) = refl

pop_except_entered :
    (vm after : Vm)
    → after.blocks ≡ entered vm ∷ vm.blocks
    → do_pop_except after
      ≡ or_panic (unwind_except_handler (entered vm) (record after { blocks = vm.blocks }))
unfolding do_pop_except
pop_except_entered vm after e = ground arith

-- POP_EXCEPT, at the end of a handler that the unwinding has entered, takes off the handler's block
-- and whatever the handler's body left on the stack: the stack, the blocks and the exception that
-- was being handled are those from before. The body may have changed anything else of the frame,
-- and ends with the blocks that it started with and with no less on the stack.
pub do_pop_except-enter_handler :
    (b : TryBlock) (vm after : Vm) (body : List Object)
    → after.blocks ≡ (enter_handler b vm).blocks
    → after.stack ≡ body ++ (enter_handler b vm).stack
    → do_pop_except after
      ≡ done (record after { stack = vm.stack; exc = vm.exc; blocks = vm.blocks })
do_pop_except-enter_handler b vm after body blocks stack =
    let three : List Object =
      type_or_none vm.curexc.type ∷ vm.curexc.value ∷ traceback vm.curexc.traceback ∷ [] in
    let popped = record after { blocks = vm.blocks } in
    let left =
      unwind_except_handler_lem (entered vm) popped (body ++ three) vm.stack
        (type_or_none vm.exc.type) vm.exc.value (traceback vm.exc.traceback) refl
        (stack ∙ sym (append_assoc body three _)) in
    pop_except_entered vm after blocks ∙ ap or_panic left ∙ rw (type_or_none_back vm.exc.type)

-- The frame behind a `finally` clause that was entered under `w`: a `break` has no value.
abbrev pub taken_up : Why → Vm → Vm → Vm
taken_up why_break vm after = record after { stack = vm.stack; why = why_break }
taken_up w vm after = record after { stack = vm.stack; why = w; retval = vm.retval }

-- END_FINALLY, behind a `finally` clause that the unwinding has entered with a `break`, `return` or
-- `continue`, takes it up again: the status and the stack are those from before, and so is the
-- value of a `return` or `continue`, whatever the clause has put in its place. The clause may have
-- changed anything else of the frame, and ends with the stack that it started with.
pub do_end_finally-enter_finally :
    (b : TryBlock) (vm after : Vm)
    → (vm.why ≡ why_break) ⊎ (vm.why ≡ why_return) ⊎ (vm.why ≡ why_continue)
    → after.stack ≡ (enter_finally b vm).stack
    → do_end_finally after ≡ done (taken_up vm.why vm after)
unfolding do_end_finally
do_end_finally-enter_finally b vm after h e = ground arith
