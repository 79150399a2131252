-- ===== src/Vm/Operators.antt =====
-- vm/eval.go: the opcodes of the unary, binary and comparison operators. The functions of package
-- py that they call, which dispatch to the operands' own methods, are an interface.
use taipan.Prelude.{ℕ, Bool, not, Option, none, some, List, [], ◌∷◌, if◌then◌else◌, ◌==◌, String}
use taipan.Prelude.Int.{ℤ, pos, negsuc}
use taipan.Exceptions.{Result, ok, err, ◌>>=◌}
use taipan.Ast.{OperatorNumber, UnaryOpNumber}
use taipan.Vm.State.{Object, Vm, Effect, done, error, panic}

-- `py.Add`, `py.Sub` and the others by their operator (`py.Pow` with None), `py.Invert`, `py.Not`,
-- `py.Pos` and `py.Neg`, `py.GetItem`, `py.GetAttrString`, the comparisons, and `py.MakeBool`.
pub record Operations : Type 0 where
  pub binary : OperatorNumber → Object → Object → Result Object
  pub unary : UnaryOpNumber → Object → Result Object
  pub get_item : Object → Object → Result Object
  pub get_attr : Object → String → Result Object
  pub lt : Object → Object → Result Object
  pub le : Object → Object → Result Object
  pub eq : Object → Object → Result Object
  pub ne : Object → Object → Result Object
  pub gt : Object → Object → Result Object
  pub ge : Object → Object → Result Object
  pub sequence_contains : Object → Object → Result Bool
  pub identical : Object → Object → Bool
  pub new_bool : Bool → Object
  pub exc_match : Object → Object → Result Object
  pub make_bool : Object → Result Bool

-- `setTopAndCheckErr` on the stack below the top.
abbrev pub set_top : List Object → Vm → Result Object → Effect
set_top s vm (ok x) = done (record vm { stack = x ∷ s })
set_top s vm (err e) = error e vm

-- TOS = f(TOS)
abbrev pub on_top : (Object → Result Object) → List Object → Vm → Effect
on_top f [] vm = panic
on_top f (a ∷ s) vm = set_top s vm (f a)

-- TOS is popped, and the new TOS is f(TOS1, TOS).
abbrev pub on_two : (Object → Object → Result Object) → List Object → Vm → Effect
on_two f (b ∷ a ∷ s) vm = set_top s (record vm { stack = a ∷ s }) (f a b)
on_two f _ vm = panic

module _ (ops : Operations) where
  unfoldable pub do_unary : UnaryOpNumber → Vm → Effect
  do_unary o vm = on_top (ops.unary o) vm.stack vm

  unfoldable pub do_binary : OperatorNumber → Vm → Effect
  do_binary o vm = on_two (ops.binary o) vm.stack vm

  unfoldable pub do_binary_subscr : Vm → Effect
  do_binary_subscr vm = on_two ops.get_item vm.stack vm

  -- `PyCmp_LT` to `PyCmp_EXC_MATCH`
  unfoldable pub compare_function : ℕ → Option (Object → Object → Result Object)
  compare_function n =
      if n == 0
      then some ops.lt
      else if n == 1
      then some ops.le
      else if n == 2
      then some ops.eq
      else if n == 3
      then some ops.ne
      else if n == 4
      then some ops.gt
      else if n == 5
      then some ops.ge
      else if n == 6
      then some (λ a b. ops.sequence_contains b a >>= λ found. ok (ops.new_bool found))
      else if n == 7
      then some (λ a b. ops.sequence_contains b a >>= λ found. ok (ops.new_bool (not found)))
      else if n == 8
      then some (λ a b. ok (ops.new_bool (ops.identical a b)))
      else if n == 9
      then some (λ a b. ok (ops.new_bool (not (ops.identical a b))))
      else if n == 10
      then some ops.exc_match
      else none

  -- Both operands are taken before the operator is looked at.
  unfoldable pub compare_two : Option (Object → Object → Result Object) → Vm → Effect
  compare_two (some f) vm = on_two f vm.stack vm
  compare_two none vm = panic

  unfoldable pub do_compare_op : ℤ → Vm → Effect
  unfolding compare_function compare_two
  do_compare_op (pos n) vm = compare_two (compare_function n) vm
  do_compare_op (negsuc n) vm = panic
