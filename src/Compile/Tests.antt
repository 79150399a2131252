-- ===== src/Compile/Tests.antt =====
-- compile/instructions.go: a conditional, assembled, read back and executed.
use mathlib.Core.Option
use taipan.Prelude.{
  ℕ, ◌≡◌, refl, Bytes, List, [], ◌∷◌, ◌++◌, some, none, false, map, arith, ◌==◌, if◌then◌else◌,
}
use taipan.Prelude.Int.{pos}
use taipan.Opcodes.{
  byte, has_arg, load_const, break_loop, pop_jump_if_false, jump_forward, jump_absolute, nop,
  return_value,
}
use taipan.Vm.State.{Vm, Object, done, value, why_not, panic}
use taipan.Vm.Unwind.{no_exception}
use taipan.Vm.Dispatch.{Machine, call_opcode}
use taipan.Exceptions.{Result, ok, err, exception, type_error}
use taipan.Compile.Loops.{Loop, loop_loop, except_loop, break_statement}
use taipan.Compile.Instructions.{
  Pos, Instruction, op, op_arg, label, jump_abs, jump_rel, Labels, assemble, outputs, size, set_pos,
  pass, arg_output,
}
use taipan.Compile.Instructions.Layout.{Placed, Moves}
use taipan.Compile.Instructions.Kept.{erase, assemble-kept}
use taipan.Compile.Instructions.Decode.{fetch_extended, fetch_extended-arg_output, behind}
use taipan.Compile.Instructions.Targets.{jump_abs_lands, jump_rel_lands}

abbrev unplaced : Pos
unplaced = record { n = 0; p = 0; lineno = 1 }

abbrev unplaced_labels : Labels
unplaced_labels d = unplaced

-- if not TOS: nop
abbrev conditional : List Instruction
conditional =
    op_arg unplaced load_const 0
    ∷ jump_abs unplaced pop_jump_if_false 0 1
    ∷ jump_rel unplaced jump_forward 0 2
    ∷ label 1
    ∷ op unplaced nop
    ∷ label 2
    ∷ op unplaced return_value
    ∷ []

abbrev conditional_code : Bytes
conditional_code = 100 ∷ 0 ∷ 0 ∷ 114 ∷ 9 ∷ 0 ∷ 110 ∷ 1 ∷ 0 ∷ 9 ∷ 83 ∷ []

assembled : assemble unplaced_labels conditional ≡ some conditional_code
unfolding assemble byte Option.bind
assembled = refl

abbrev at : ℕ → ℕ → Pos
at n p = record { n = n; p = p; lineno = 1 }

abbrev placed : List Instruction
placed =
    op_arg (at 0 0) load_const 0
    ∷ jump_abs (at 1 3) pop_jump_if_false 9 1
    ∷ jump_rel (at 2 6) jump_forward 1 2
    ∷ label 1
    ∷ op (at 4 9) nop
    ∷ label 2
    ∷ op (at 6 10) return_value
    ∷ []

abbrev labels : Labels
labels d = if d == 1 then at 3 9 else at 5 10

conditional-Placed : Placed labels 0 placed
unfolding size
conditional-Placed = ground arith

moves : Moves unplaced_labels conditional
unfolding pass size set_pos Option.bind
moves = (_, refl)

assemble-kept_example :
    (ls : Labels) × (ys : List Instruction) × (conditional_code ≡ outputs ys)
    × Placed ls 0 ys
    × (map erase ys ≡ map erase conditional)
assemble-kept_example =
    assemble-kept unplaced_labels conditional {out = conditional_code} moves assembled

abbrev vm_at : ℕ → Vm
vm_at n = record {
  lasti = pos n;
  stack = value 1 ∷ [];
  blocks = [];
  yielded = false;
  extended = false;
  ext = pos 0;
  retval = value 0;
  why = why_not;
  curexc = no_exception;
  exc = no_exception;
}

-- LOAD_CONST 70000
fetch_extended-arg_output_example :
    fetch_extended ((9 ∷ []) ++ (arg_output load_const 70000 ++ (83 ∷ []))) (vm_at 1)
    ≡ some (byte load_const, pos 70000, behind 1 70000 (vm_at 1))
unfolding has_arg byte
fetch_extended-arg_output_example =
    fetch_extended-arg_output load_const 70000 (9 ∷ []) (83 ∷ []) (vm_at 1) refl refl (omega arith)
      (omega arith) refl refl

abbrev refuses : Object → Object → Result Object
refuses a b = err (exception type_error "unsupported operand type")

abbrev machine : Machine
machine = record {
  ops = record {
    binary = λ o. refuses;
    unary = λ o a. ok a;
    get_item = refuses;
    get_attr = λ a id. ok a;
    lt = refuses;
    le = refuses;
    eq = refuses;
    ne = refuses;
    gt = refuses;
    ge = refuses;
    sequence_contains = λ a b. ok false;
    identical = λ a b. false;
    new_bool = λ b. value 0;
    exc_match = refuses;
    make_bool = λ a. ok false;
  };
  frame = record {
    locals = λ id. none;
    globals = λ id. none;
    builtins = λ id. none;
    local_vars = [];
    consts = [];
    names = [];
  };
  other = λ o arg vm. panic;
}

-- A jump back to the second of two instructions.
abbrev going_back : List Instruction
going_back =
    op (at 0 0) nop
    ∷ label 1
    ∷ op (at 2 1) nop
    ∷ jump_abs (at 3 2) jump_absolute 1 1
    ∷ op (at 4 5) return_value
    ∷ []

abbrev back_labels : Labels
back_labels d = at 1 1

going_back-Placed : Placed back_labels 0 going_back
unfolding size
going_back-Placed = ground arith

jump_abs_lands_example :
    call_opcode machine (fetch_extended (outputs going_back) (vm_at 2)) ≡ done (vm_at 1)
unfolding outputs
jump_abs_lands_example =
    jump_abs_lands machine back_labels going_back (op (at 0 0) nop ∷ [])
      (op (at 2 1) nop ∷ jump_abs (at 3 2) jump_absolute 1 1 ∷ op (at 4 5) return_value ∷ [])
      (op (at 0 0) nop ∷ label 1 ∷ op (at 2 1) nop ∷ []) (op (at 4 5) return_value ∷ []) 1 (at 3 2)
      1 (vm_at 2) (omega arith) going_back-Placed refl refl refl refl

jump_rel_lands_example :
    call_opcode machine (fetch_extended (outputs placed) (vm_at 6)) ≡ done (vm_at 10)
unfolding outputs
jump_rel_lands_example =
    jump_rel_lands machine labels placed
      (op_arg (at 0 0) load_const 0
        ∷ jump_abs (at 1 3) pop_jump_if_false 9 1
        ∷ jump_rel (at 2 6) jump_forward 1 2
        ∷ label 1
        ∷ op (at 4 9) nop
        ∷ [])
      (op (at 6 10) return_value ∷ [])
      (op_arg (at 0 0) load_const 0 ∷ jump_abs (at 1 3) pop_jump_if_false 9 1 ∷ [])
      (label 1 ∷ op (at 4 9) nop ∷ label 2 ∷ op (at 6 10) return_value ∷ []) 2 (at 2 6) 1 (vm_at 6)
      (omega arith) conditional-Placed refl refl refl refl

-- A try body in a loop, and one outside every loop.
abbrev try_in_loop : List Loop
try_in_loop =
    (record { start = 0; type = except_loop }) ∷ (record { start = 7; type = loop_loop }) ∷ []

abbrev try_alone : List Loop
try_alone = (record { start = 0; type = except_loop }) ∷ []

-- A `break` is compiled with no loop to leave.
break_alone : break_statement try_alone ≡ ok break_loop
unfolding break_statement
break_alone = refl
