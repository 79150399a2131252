-- ===== src/Compile/Expressions/Operated.antt =====
-- vm/eval.go: what the opcodes that expressions are compiled to do to the stack.
use taipan.Prelude.{ℕ, suc, ◌≡◌, refl, sym, subst, Option, none, some, List, [], ◌∷◌}
use taipan.Prelude.Int.{pos}
use taipan.Exceptions.{Result, ok, err}
use taipan.Ast
use taipan.Ast.{OperatorNumber, UnaryOpNumber, CmpOp, BoolOpNumber}
use taipan.Opcodes
use taipan.Opcodes.{OpCode, byte, has_arg, extended_arg}
use taipan.Vm.State.{Object, Vm, Effect}
use taipan.Vm.Dispatch.{Machine, execute}
use taipan.Vm.Stack.{
  do_rot_two, do_rot_three, do_dup_top, do_pop_top, on_stack, rot_two, rot_three, dup_top, drop_top,
}
use taipan.Vm.Operators.{
  Operations, on_top, on_two, set_top, do_unary, do_binary, do_binary_subscr, do_compare_op,
  compare_function, compare_two,
}
use taipan.Compile.Expressions.{binary_opcode, unary_opcode, compare_code}
use taipan.Compile.Expressions.Meaning.{compare_by}
use taipan.Compile.Expressions.Flow.{Program, Outcome, gives, raises, unknown, At}
use taipan.Compile.Expressions.Emitted.{Answers, Continues}

-- A result on top of the stack, or its exception.
abbrev pub outcome_of : Result Object → List Object → Outcome
outcome_of (ok x) s = gives (x ∷ s)
outcome_of (err e) s = raises e

abbrev pub one : (Object → Result Object) → List Object → Outcome
one f (a ∷ s) = outcome_of (f a) s
one f [] = unknown

abbrev pub two : (Object → Object → Result Object) → List Object → Outcome
two f (b ∷ a ∷ s) = outcome_of (f a b) s
two f _ = unknown

abbrev pub moved : Option (List Object) → Outcome
moved (some s) = gives s
moved none = unknown

module _ (m : Machine) (p : Program) where
  -- A machine with another stack at the same place.
  pub with_stack :
      {j : ℕ} {s : List Object} {vm : Vm}
      → At m p j s vm
      → (t : List Object) → At m p j t (record vm { stack = t })
  with_stack at t = record { lasti = at.lasti; stack = refl; extended = at.extended; why = at.why }

  pub set_top-Answers :
      (j : ℕ) (s t : List Object) (vm : Vm) (r : Result Object)
      → At m p j t vm
      → Answers m p j (outcome_of r s) (set_top s vm r)
  set_top-Answers j s t vm (ok x) at = (_, refl, with_stack at (x ∷ s))
  set_top-Answers j s t vm (err e) at = (vm, refl)

  pub on_top-Answers :
      (j : ℕ) (s : List Object) (vm : Vm) (f : Object → Result Object)
      → At m p j s vm
      → Answers m p j (one f s) (on_top f s vm)
  on_top-Answers j [] vm f at = tt
  on_top-Answers j (a ∷ s) vm f at = set_top-Answers j s (a ∷ s) vm (f a) at

  on_two-Answers :
      (j : ℕ) (s : List Object) (vm : Vm) (f : Object → Object → Result Object)
      → At m p j s vm
      → Answers m p j (two f s) (on_two f s vm)
  on_two-Answers j [] vm f at = tt
  on_two-Answers j (b ∷ []) vm f at = tt
  on_two-Answers j (b ∷ a ∷ s) vm f at =
      set_top-Answers j s (a ∷ s) _ (f a b) (with_stack at (a ∷ s))

  moved-Answers :
      (j : ℕ) (s : List Object) (vm : Vm) (r : Option (List Object))
      → At m p j s vm
      → Answers m p j (moved r) (on_stack (λ t. r) vm)
  moved-Answers j s vm none at = tt
  moved-Answers j s vm (some t) at = (_, refl, with_stack at t)

  -- The machine's stack is the one that is spoken of.
  pub of_stack :
      (j : ℕ) (s : List Object) (out : Outcome) (vm : Vm) (f : List Object → Effect)
      → At m p j s vm
      → Answers m p j out (f s)
      → Answers m p j out (f vm.stack)
  of_stack j s out vm f at h = subst (λ t. Answers m p j out (f t)) (sym at.stack) h

  execute-binary :
      (o : OperatorNumber) (a : ℕ) (vm : Vm)
      → execute m (binary_opcode o) (pos a) vm ≡ do_binary m.ops o vm
  unfolding execute binary_opcode
  execute-binary Ast.add a vm = refl
  execute-binary Ast.sub a vm = refl
  execute-binary _ a vm = refl

  pub Continues-binary :
      (k a : ℕ) (s : List Object) (o : OperatorNumber)
      → Continues m p k s (two (m.ops.binary o) s) (binary_opcode o) a
  unfolding do_binary
  Continues-binary k a s o vm at =
      subst (Answers m p (suc k) (two (m.ops.binary o) s)) (sym (execute-binary o a vm)) (
        of_stack (suc k) s _ vm (λ t. on_two (m.ops.binary o) t vm) at
          (on_two-Answers (suc k) s vm (m.ops.binary o) at))

  execute-unary :
      (o : UnaryOpNumber) (a : ℕ) (vm : Vm)
      → execute m (unary_opcode o) (pos a) vm ≡ do_unary m.ops o vm
  unfolding execute unary_opcode
  execute-unary Ast.invert a vm = refl
  execute-unary _ a vm = refl

  pub Continues-unary :
      (k a : ℕ) (s : List Object) (o : UnaryOpNumber)
      → Continues m p k s (one (m.ops.unary o) s) (unary_opcode o) a
  unfolding do_unary
  Continues-unary k a s o vm at =
      subst (Answers m p (suc k) (one (m.ops.unary o) s)) (sym (execute-unary o a vm)) (
        of_stack (suc k) s _ vm (λ t. on_top (m.ops.unary o) t vm) at
          (on_top-Answers (suc k) s vm (m.ops.unary o) at))

  pub Continues-binary_subscr :
      (k a : ℕ) (s : List Object) → Continues m p k s (two m.ops.get_item s) Opcodes.binary_subscr a
  unfolding execute do_binary_subscr
  Continues-binary_subscr k a s vm at =
      of_stack (suc k) s _ vm (λ t. on_two m.ops.get_item t vm) at
        (on_two-Answers (suc k) s vm m.ops.get_item at)

  -- The number of an operator stands for its function.
  compare_function-compare_code :
      (ops : Operations) (o : CmpOp)
      → compare_function ops (compare_code o) ≡ some (compare_by ops o)
  unfolding compare_function compare_code compare_by
  compare_function-compare_code ops Ast.eq = refl
  compare_function-compare_code ops _ = refl

  pub Continues-compare_op :
      (k : ℕ) (s : List Object) (o : CmpOp)
      → Continues m p k s (two (compare_by m.ops o) s) Opcodes.compare_op (compare_code o)
  unfolding execute do_compare_op compare_two
  Continues-compare_op k s o vm at = rw (compare_function-compare_code m.ops o) (
      of_stack (suc k) s _ vm (λ t. on_two (compare_by m.ops o) t vm) at
        (on_two-Answers (suc k) s vm (compare_by m.ops o) at))

  -- The opcodes that only move the stack's elements.
  of_move :
      (j : ℕ) (s : List Object) (vm : Vm) (f : List Object → Option (List Object))
      → At m p j s vm
      → Answers m p j (moved (f s)) (on_stack f vm)
  of_move j s vm f at =
      of_stack j s (moved (f s)) vm (λ t. on_stack (λ u. f t) vm) at (moved-Answers j s vm (f s) at)

  pub Continues-rot_two :
      (k a : ℕ) (s : List Object) → Continues m p k s (moved (rot_two s)) Opcodes.rot_two a
  unfolding execute do_rot_two
  Continues-rot_two k a s vm at = of_move (suc k) s vm rot_two at

  pub Continues-rot_three :
      (k a : ℕ) (s : List Object) → Continues m p k s (moved (rot_three s)) Opcodes.rot_three a
  unfolding execute do_rot_three
  Continues-rot_three k a s vm at = of_move (suc k) s vm rot_three at

  pub Continues-dup_top :
      (k a : ℕ) (s : List Object) → Continues m p k s (moved (dup_top s)) Opcodes.dup_top a
  unfolding execute do_dup_top
  Continues-dup_top k a s vm at = of_move (suc k) s vm dup_top at

  pub Continues-pop_top :
      (k a : ℕ) (s : List Object) → Continues m p k s (moved (drop_top s)) Opcodes.pop_top a
  unfolding execute do_pop_top
  Continues-pop_top k a s vm at = of_move (suc k) s vm drop_top at
