-- ===== src/Compile/Expressions/Tests.antt =====
-- compile/compile.go and vm/eval.go: a chained comparison, compiled, assembled and run.
use mathlib.Core.Option
use taipan.Prelude.{
  ℕ, ◌≡◌, ◌<◌, ◌↔◌, refl, ap, Bool, true, false, Option, none, some, List, [], ◌∷◌, ◌++◌, ◌==◌, ltb,
  String, str_eq, Bytes, length, arith, if◌then◌else◌,
}
use taipan.Prelude.Int.{pos}
use taipan.Exceptions.{Result, ok, err, exception, type_error}
use taipan.Ast
use taipan.Ast.{Expr, last_comparison, more_comparisons}
use taipan.Opcodes
use taipan.Opcodes.{byte, has_arg}
use taipan.Symtable.{scope_global_implicit, module_block}
use taipan.Vm.State.{Object, int, value, Vm, panic, why_not}
use taipan.Vm.Unwind.{no_exception}
use taipan.Vm.Operators.{Operations}
use taipan.Vm.Dispatch.{Machine}
use taipan.Compile.Instructions.{
  Pos, Instruction, op, op_arg, label, jump_abs, jump_rel, Labels, assemble, outputs, size, set_pos,
  pass,
}
use taipan.Compile.Instructions.Layout.{Placed, Moves}
use taipan.Compile.Instructions.Kept.{nowhere, erase}
use taipan.Compile.Emission.{Scoping, Compiler}
use taipan.Compile.Expressions.{compile_expression, expr, new_compiler}
use taipan.Compile.Expressions.Meaning.{eval, variable}
use taipan.Compile.Expressions.Flow.{Program, At, Lands}
use taipan.Compile.Expressions.Pieces.{Fits}
use taipan.Compile.Expressions.Named.{Linked}
use taipan.Compile.Expressions.Correct.{expr-Lands}
use taipan.Compile.Expressions.Whole.{Returns, compile_expression-runs}
use taipan.Compile.Expressions.Total.{compile_expression-IsAllowed}
use taipan.Compile.Expressions.Allowed.{IsAllowed}

-- 1 < x < 3
abbrev sample : Expr
sample =
    Ast.compare 1 (Ast.num 1 (int (pos 1)))
      (more_comparisons Ast.lt (Ast.name 1 "x") (last_comparison Ast.lt (Ast.num 1 (int (pos 3)))))

abbrev same_type : Object → Object → Bool
same_type (int (pos a)) (int (pos b)) = true
same_type _ _ = false

abbrev equal : Object → Object → Result Bool
equal (int (pos a)) (int (pos b)) = ok (a == b)
equal _ _ = err (exception type_error "no")

abbrev module_scope : Scoping
module_scope = record {
  same_type = same_type;
  eq = equal;
  get_scope = λ id. scope_global_implicit;
  block_type = module_block;
  unoptimized = false;
}

distinct :
    (a b : Object) → module_scope.same_type a b ≡ true → module_scope.eq a b ≡ ok true → a ≡ b
distinct (int (pos a)) (int (pos b)) h k =
    let e : (a == b) ≡ true = cc in let f : a ≡ b = ground arith in ap (λ n. int (pos n)) f
distinct _ _ h k = cc

abbrev truth : Bool → Object
truth b = value (if b then 1 else 0)

abbrev less : Object → Object → Result Object
less (int (pos a)) (int (pos b)) = ok (truth (ltb a b))
less _ _ = err (exception type_error "unorderable types")

abbrev make_bool : Object → Result Bool
make_bool (value n) = ok (n == 1)
make_bool _ = err (exception type_error "no truth")

abbrev refuses : Object → Object → Result Object
refuses a b = err (exception type_error "unsupported operand type")

abbrev operations : Operations
operations = record {
  binary = λ o. refuses;
  unary = λ o a. ok a;
  get_item = refuses;
  get_attr = λ a id. ok a;
  lt = less;
  le = refuses;
  eq = refuses;
  ne = refuses;
  gt = refuses;
  ge = refuses;
  sequence_contains = λ a b. ok false;
  identical = λ a b. false;
  new_bool = truth;
  exc_match = refuses;
  make_bool = make_bool;
}

abbrev global_x : String → Option Object
global_x id = if str_eq id "x" then some (int (pos 2)) else none

abbrev machine : Machine
machine = record {
  ops = operations;
  frame = record {
    locals = λ id. none;
    globals = global_x;
    builtins = λ id. none;
    local_vars = [];
    consts = int (pos 1) ∷ int (pos 3) ∷ [];
    names = "x" ∷ [];
  };
  other = λ o arg vm. panic;
}

abbrev unplaced : Pos
unplaced = record { n = 0; p = 0; lineno = 1 }

abbrev compiler_after : List Instruction → Compiler
compiler_after xs = record {
  lineno = 1;
  consts = int (pos 1) ∷ int (pos 3) ∷ [];
  names = "x" ∷ [];
  varnames = [];
  freevars = [];
  cellvars = [];
  op_codes = xs;
  labels = 2;
}

abbrev sample_code : List Instruction
sample_code =
    op_arg unplaced Opcodes.load_const 0
    ∷ op_arg unplaced Opcodes.load_name 0
    ∷ op unplaced Opcodes.dup_top
    ∷ op unplaced Opcodes.rot_three
    ∷ op_arg unplaced Opcodes.compare_op 0
    ∷ jump_abs unplaced Opcodes.jump_if_false_or_pop 0 0
    ∷ op_arg unplaced Opcodes.load_const 1
    ∷ op_arg unplaced Opcodes.compare_op 0
    ∷ jump_rel unplaced Opcodes.jump_forward 0 1
    ∷ label 0
    ∷ op unplaced Opcodes.rot_two
    ∷ op unplaced Opcodes.pop_top
    ∷ label 1
    ∷ []

abbrev whole_code : List Instruction
whole_code = sample_code ++ op unplaced Opcodes.return_value ∷ []

abbrev fresh : Compiler
fresh = new_compiler 1 [] [] []

compiled_sample : expr module_scope sample fresh ≡ some (compiler_after sample_code)
unfolding expr Option.bind byte has_arg
compiled_sample = refl

compiled_whole : compile_expression module_scope sample fresh ≡ some (compiler_after whole_code)
unfolding compile_expression Option.bind byte has_arg
compiled_whole = refl

abbrev labels_at_0 : Labels
labels_at_0 d = nowhere

abbrev whole_bytes : Bytes
whole_bytes =
    100 ∷ 0 ∷ 0 ∷ 101 ∷ 0 ∷ 0 ∷ 4 ∷ 3 ∷ 107 ∷ 0 ∷ 0 ∷ 111 ∷ 23 ∷ 0 ∷ 100 ∷ 1 ∷ 0 ∷ 107 ∷ 0 ∷ 0 ∷ 110
    ∷ 2 ∷ 0 ∷ 2 ∷ 1 ∷ 83 ∷ []

assembled : assemble labels_at_0 whole_code ≡ some whole_bytes
unfolding assemble byte Option.bind
assembled = refl

moves : Moves labels_at_0 whole_code
unfolding pass size set_pos Option.bind
moves = (_, refl)

abbrev vm_at : ℕ → List Object → Vm
vm_at n s = record {
  lasti = pos n;
  stack = s;
  blocks = [];
  yielded = false;
  extended = false;
  ext = pos 0;
  retval = value 0;
  why = why_not;
  curexc = no_exception;
  exc = no_exception;
}

compile_expression-IsAllowed_example :
    ((c' : Compiler) × (compile_expression module_scope sample fresh ≡ some c')) ↔ IsAllowed sample
compile_expression-IsAllowed_example = compile_expression-IsAllowed module_scope sample fresh

compile_expression-runs_example : Returns machine whole_bytes (vm_at 0 []) (ok (value 1))
unfolding eval variable
compile_expression-runs_example =
    compile_expression-runs machine module_scope distinct (λ id. refl) sample fresh
      (compiler_after whole_code) labels_at_0 whole_bytes (vm_at 0 []) refl compiled_whole moves
      assembled (omega arith) refl refl (omega arith) (omega arith) (omega arith) (omega arith) refl
      refl refl refl

abbrev at : ℕ → Pos
at p = record { n = 0; p = p; lineno = 1 }

abbrev placed_code : List Instruction
placed_code =
    op_arg (at 0) Opcodes.load_const 0
    ∷ op_arg (at 3) Opcodes.load_name 0
    ∷ op (at 6) Opcodes.dup_top
    ∷ op (at 7) Opcodes.rot_three
    ∷ op_arg (at 8) Opcodes.compare_op 0
    ∷ jump_abs (at 11) Opcodes.jump_if_false_or_pop 23 0
    ∷ op_arg (at 14) Opcodes.load_const 1
    ∷ op_arg (at 17) Opcodes.compare_op 0
    ∷ jump_rel (at 20) Opcodes.jump_forward 2 1
    ∷ label 0
    ∷ op (at 23) Opcodes.rot_two
    ∷ op (at 24) Opcodes.pop_top
    ∷ label 1
    ∷ op (at 25) Opcodes.return_value
    ∷ []

abbrev placed_labels : Labels
placed_labels d = if d == 0 then at 23 else at 25

code-Placed : Placed placed_labels 0 placed_code
unfolding size
code-Placed = ground arith

code_short : length (outputs placed_code) < 0x7fff_fff0
unfolding outputs byte
code_short = omega arith

abbrev program : Program
program = record {
  labels = placed_labels;
  stream = placed_code;
  varnames = [];
  placed = code-Placed;
  short = code_short;
}

linked : Linked machine program
linked = record {
  few_consts = omega arith;
  few_names = omega arith;
  few_varnames = omega arith;
  slots = omega arith;
}

fits : Fits machine program (compiler_after sample_code)
unfolding erase
fits = ((op nowhere Opcodes.return_value ∷ [], refl), ([], refl), ([], refl), ([], refl))

starts : At machine program 0 [] (vm_at 0 [])
unfolding outputs
starts = record { lasti = refl; stack = refl; extended = refl; why = refl }

expr-Lands_example : Lands machine program (vm_at 0 []) 13 [] (ok (value 1))
unfolding eval variable
expr-Lands_example =
    expr-Lands machine program linked module_scope distinct (λ id. refl) sample fresh
      (compiler_after sample_code) [] (vm_at 0 []) compiled_sample fits starts
