-- ===== src/Vm/Jumps.antt =====
-- vm/eval.go: the jumps. What `py.MakeBool` answers for an object and what `py.Next` answers for an
-- iterator are parameters: they call the object's own methods.
use taipan.Prelude.{Bool, true, false, not, List, [], ◌∷◌, if◌then◌else◌, ◌≡◌, arith}
use taipan.Prelude.Int.{ℤ}
use taipan.Exceptions.{Exception, Result, ok, err}
use taipan.Vm.State.{Object, Vm, Effect, done, error, panic, push, jump_by}

-- `py.Next` returns an item or an error; the end of the iteration is the error StopIteration.
pub data NextError : Type 0 where
  stop_iteration : NextError
  exception : Exception → NextError
  external_call : NextError

pub data NextResult : Type 0 where
  item : Object → NextResult
  failed : NextError → NextResult

unfoldable pub do_jump_forward : ℤ → Vm → Effect
do_jump_forward delta vm = done (record vm { lasti = jump_by delta vm })

unfoldable pub do_jump_absolute : ℤ → Vm → Effect
do_jump_absolute target vm = done (record vm { lasti = target })

-- What a conditional jump does with the truth of the popped top.
abbrev pub jump_when : Bool → ℤ → Vm → Vm
jump_when true target vm = record vm { lasti = target }
jump_when false target vm = vm

-- `if err != nil { return err }` behind `py.MakeBool`.
abbrev pub after_truth : Result Bool → Vm → (Bool → Effect) → Effect
after_truth (ok b) vm f = f b
after_truth (err e) vm f = error e vm

module _ (make_bool : Object → Result Bool) where
  -- The top is popped, and the jump is taken when its truth is `sense`.
  unfoldable pub pop_jump : (Bool → Bool) → ℤ → List Object → Vm → Effect
  pop_jump sense target [] vm = panic
  pop_jump sense target (x ∷ s) vm =
      after_truth (make_bool x) (record vm { stack = s })
        (λ b. done (jump_when (sense b) target (record vm { stack = s })))

  -- The top stays when the jump is taken, and is dropped otherwise.
  unfoldable pub jump_or_pop : (Bool → Bool) → ℤ → List Object → Vm → Effect
  jump_or_pop sense target [] vm = panic
  jump_or_pop sense target (x ∷ s) vm =
      after_truth (make_bool x) vm
        (λ b. done (if sense b then record vm { lasti = target } else record vm { stack = s }))

  unfoldable pub do_pop_jump_if_true : ℤ → Vm → Effect
  unfolding pop_jump
  do_pop_jump_if_true target vm = pop_jump (λ b. b) target vm.stack vm

  unfoldable pub do_pop_jump_if_false : ℤ → Vm → Effect
  unfolding pop_jump
  do_pop_jump_if_false target vm = pop_jump not target vm.stack vm

  unfoldable pub do_jump_if_true_or_pop : ℤ → Vm → Effect
  unfolding jump_or_pop
  do_jump_if_true_or_pop target vm = jump_or_pop (λ b. b) target vm.stack vm

  unfoldable pub do_jump_if_false_or_pop : ℤ → Vm → Effect
  unfolding jump_or_pop
  do_jump_if_false_or_pop target vm = jump_or_pop not target vm.stack vm

module _ (next : Object → NextResult) where
  for_iter : ℤ → List Object → Vm → Effect
  for_iter delta [] vm = panic
  for_iter delta (x ∷ s) vm = elim (next x) [
    | item r ↦ done (push r vm)
    | failed e ↦ done (record vm { stack = s; lasti = jump_by delta vm })
  ]

  unfoldable pub do_for_iter : ℤ → Vm → Effect
  unfolding for_iter
  do_for_iter delta vm = for_iter delta vm.stack vm

for_iter_cong :
    (next exhausted : Object → NextResult) (delta : ℤ) (vm : Vm) (stack : List Object) {x : Object}
    {s : List Object} {e : NextError}
    → stack ≡ x ∷ s
    → next x ≡ failed e
    → exhausted x ≡ failed stop_iteration
    → for_iter next delta stack vm ≡ for_iter exhausted delta stack vm
unfolding for_iter
for_iter_cong next exhausted delta vm [] h k l = cc
for_iter_cong next exhausted delta vm (y ∷ r) h k l = ground arith

-- An iterator that fails, with an exception or with an external call to be resolved, leaves
-- FOR_ITER in the same state, with no error, as one that is exhausted.
pub do_for_iter_swallows :
    (next exhausted : Object → NextResult) (delta : ℤ) (x : Object) (s : List Object) (vm : Vm)
    (e : NextError)
    → vm.stack ≡ x ∷ s
    → next x ≡ failed e
    → exhausted x ≡ failed stop_iteration
    → do_for_iter next delta vm ≡ do_for_iter exhausted delta vm
unfolding do_for_iter
do_for_iter_swallows next exhausted delta x s vm e h k l =
    for_iter_cong next exhausted delta vm vm.stack h k l
