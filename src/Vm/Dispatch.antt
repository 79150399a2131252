-- ===== src/Vm/Dispatch.antt =====
-- vm/jumptable.go and the loop of `runFrame` in vm/eval.go: an opcode's function is looked up and
-- called. The opcodes that no expression is compiled to are a parameter.
use taipan.Prelude.{ℕ, Option, none, some}
use taipan.Prelude.Int.{ℤ}
use taipan.Ast
use taipan.Opcodes
use taipan.Opcodes.{OpCode, of_byte}
use taipan.Vm.State.{Vm, Effect, panic}
use taipan.Vm.Stack.{
  do_illegal, do_nop, do_pop_top, do_rot_two, do_rot_three, do_dup_top, do_dup_top_two,
  do_return_value,
}
use taipan.Vm.Jumps.{
  do_jump_forward, do_jump_absolute, do_pop_jump_if_true, do_pop_jump_if_false,
  do_jump_if_true_or_pop, do_jump_if_false_or_pop,
}
use taipan.Vm.Operators.{Operations, do_unary, do_binary, do_binary_subscr, do_compare_op}
use taipan.Vm.Names.{
  FrameNames, do_load_const, do_load_name, do_load_global, do_load_fast, do_load_attr,
}

-- What the loop needs besides the machine's state.
pub record Machine : Type 0 where
  pub ops : Operations
  pub frame : FrameNames
  pub other : OpCode → ℤ → Vm → Effect

unfoldable pub execute : Machine → OpCode → ℤ → Vm → Effect
execute m Opcodes.nop arg vm = do_nop vm
execute m Opcodes.pop_top arg vm = do_pop_top vm
execute m Opcodes.rot_two arg vm = do_rot_two vm
execute m Opcodes.rot_three arg vm = do_rot_three vm
execute m Opcodes.dup_top arg vm = do_dup_top vm
execute m Opcodes.dup_top_two arg vm = do_dup_top_two vm
execute m Opcodes.unary_positive arg vm = do_unary m.ops Ast.u_add vm
execute m Opcodes.unary_negative arg vm = do_unary m.ops Ast.u_sub vm
execute m Opcodes.unary_not arg vm = do_unary m.ops Ast.u_not vm
execute m Opcodes.unary_invert arg vm = do_unary m.ops Ast.invert vm
execute m Opcodes.binary_power arg vm = do_binary m.ops Ast.pow vm
execute m Opcodes.binary_multiply arg vm = do_binary m.ops Ast.mult vm
execute m Opcodes.binary_modulo arg vm = do_binary m.ops Ast.modulo vm
execute m Opcodes.binary_add arg vm = do_binary m.ops Ast.add vm
execute m Opcodes.binary_subtract arg vm = do_binary m.ops Ast.sub vm
execute m Opcodes.binary_subscr arg vm = do_binary_subscr m.ops vm
execute m Opcodes.binary_floor_divide arg vm = do_binary m.ops Ast.floor_div vm
execute m Opcodes.binary_true_divide arg vm = do_binary m.ops Ast.div vm
execute m Opcodes.binary_lshift arg vm = do_binary m.ops Ast.l_shift vm
execute m Opcodes.binary_rshift arg vm = do_binary m.ops Ast.r_shift vm
execute m Opcodes.binary_and arg vm = do_binary m.ops Ast.bit_and vm
execute m Opcodes.binary_xor arg vm = do_binary m.ops Ast.bit_xor vm
execute m Opcodes.binary_or arg vm = do_binary m.ops Ast.bit_or vm
execute m Opcodes.return_value arg vm = do_return_value vm
execute m Opcodes.load_const arg vm = do_load_const m.frame arg vm
execute m Opcodes.load_name arg vm = do_load_name m.frame arg vm
execute m Opcodes.load_global arg vm = do_load_global m.frame arg vm
execute m Opcodes.load_fast arg vm = do_load_fast m.frame arg vm
execute m Opcodes.load_attr arg vm = do_load_attr m.frame m.ops arg vm
execute m Opcodes.compare_op arg vm = do_compare_op m.ops arg vm
execute m Opcodes.jump_forward arg vm = do_jump_forward arg vm
execute m Opcodes.jump_absolute arg vm = do_jump_absolute arg vm
execute m Opcodes.jump_if_false_or_pop arg vm = do_jump_if_false_or_pop m.ops.make_bool arg vm
execute m Opcodes.jump_if_true_or_pop arg vm = do_jump_if_true_or_pop m.ops.make_bool arg vm
execute m Opcodes.pop_jump_if_false arg vm = do_pop_jump_if_false m.ops.make_bool arg vm
execute m Opcodes.pop_jump_if_true arg vm = do_pop_jump_if_true m.ops.make_bool arg vm
execute m o arg vm = m.other o arg vm

-- `jumpTable`, whose entries are `do_ILLEGAL` where there is no opcode.
call : Machine → Option OpCode → ℤ → Vm → Effect
unfolding execute
call m none arg vm = do_illegal vm
call m (some o) arg vm = execute m o arg vm

-- The opcode that was read, or the panic of reading outside the code.
unfoldable pub call_opcode : Machine → Option (ℕ × ℤ × Vm) → Effect
unfolding call of_byte
call_opcode m none = panic
call_opcode m (some (b, arg, vm)) = call m (of_byte b) arg vm
