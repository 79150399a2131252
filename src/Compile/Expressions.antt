-- ===== src/Compile/Expressions.antt =====
-- compile/compile.go: the compilation of expressions to the instructions of Compile/Emission.
pub mod Meaning
pub mod Flow
pub mod Emitted
pub mod Jumping
pub mod Operated
pub mod Branched
pub mod Tables
pub mod Pieces
pub mod Named
pub mod Outcomes
pub mod Correct
pub mod Last
pub mod Whole
pub mod Panics
pub mod Allowed
pub mod Total
mod Tests
use mathlib.Core.Option
use taipan.Prelude.{
  ℕ, ◌+◌, Bool, true, false, ◌&&◌, ◌||◌, not, Option, none, some, List, [], ◌∷◌, ◌++◌, length,
  String, str_eq, if◌then◌else◌,
}
use taipan.Exceptions.{Result, ok, err}
use taipan.Opcodes
use taipan.Opcodes.{OpCode, byte, has_arg}
use taipan.Vm.State.{Object}
use taipan.Symtable.{
  Scope, scope_invalid, scope_local, scope_global_explicit, scope_global_implicit, scope_free,
  scope_cell, BlockType, function_block, class_block,
}
use taipan.Compile.Instructions.{
  Instruction, op_arg, label, jump_abs, jump_rel, Pos, u32, ends_with_return,
}
use taipan.Ast
use taipan.Ast.{
  Identifier, ExprContext, load, store, del, aug_load, aug_store, param, BoolOpNumber,
  OperatorNumber, UnaryOpNumber, CmpOp, Expr, Exprs, Comparisons, last_expr, more_exprs,
  last_comparison, more_comparisons,
}
use taipan.Compile.Emission.{
  Scoping, Compiler, Code, ◌then◌, emit_op, emit_op_arg, emit_label, jump, with_labels, op_name,
  load_const, name_op,
}

-- The opcodes of the operators.
unfoldable pub bool_opcode : BoolOpNumber → OpCode
bool_opcode Ast.and = Opcodes.jump_if_false_or_pop
bool_opcode Ast.or = Opcodes.jump_if_true_or_pop

unfoldable pub binary_opcode : OperatorNumber → OpCode
binary_opcode Ast.add = Opcodes.binary_add
binary_opcode Ast.sub = Opcodes.binary_subtract
binary_opcode Ast.mult = Opcodes.binary_multiply
binary_opcode Ast.div = Opcodes.binary_true_divide
binary_opcode Ast.modulo = Opcodes.binary_modulo
binary_opcode Ast.pow = Opcodes.binary_power
binary_opcode Ast.l_shift = Opcodes.binary_lshift
binary_opcode Ast.r_shift = Opcodes.binary_rshift
binary_opcode Ast.bit_or = Opcodes.binary_or
binary_opcode Ast.bit_xor = Opcodes.binary_xor
binary_opcode Ast.bit_and = Opcodes.binary_and
binary_opcode Ast.floor_div = Opcodes.binary_floor_divide

unfoldable pub unary_opcode : UnaryOpNumber → OpCode
unary_opcode Ast.invert = Opcodes.unary_invert
unary_opcode Ast.u_not = Opcodes.unary_not
unary_opcode Ast.u_add = Opcodes.unary_positive
unary_opcode Ast.u_sub = Opcodes.unary_negative

-- The argument of COMPARE_OP: `PyCmp_EQ` and the others.
unfoldable pub compare_code : CmpOp → ℕ
compare_code Ast.lt = 0
compare_code Ast.lt_e = 1
compare_code Ast.eq = 2
compare_code Ast.not_eq = 3
compare_code Ast.gt = 4
compare_code Ast.gt_e = 5
compare_code Ast.contained = 6
compare_code Ast.not_contained = 7
compare_code Ast.is = 8
compare_code Ast.is_not = 9

-- `SetLineno`
unfoldable pub set_lineno : ℕ → Code
set_lineno n c = some (record c { lineno = n })

-- What follows the comparisons, where there are more than one.
unfoldable pub compare_end : ℕ → ℕ → Comparisons → Code → Code
unfolding emit_op emit_label jump ◌then◌
compare_end d end (last_comparison o x) compared = compared
compare_end d end (more_comparisons o x cs) compared =
    compared
    then jump Opcodes.jump_forward end
    then emit_label d
    then emit_op Opcodes.rot_two
    then emit_op Opcodes.pop_top
    then emit_label end

-- `LoadConst` of a Num, Str, Bytes or NameConstant.
abbrev pub literal_code : Scoping → Code → Object → Code
literal_code scoping start x = start then load_const scoping x

-- The Attribute case in each context, with the code of its value.
abbrev pub attribute_code : ExprContext → Code → Code → Identifier → Code
attribute_code aug_load start value id =
    start then value then emit_op Opcodes.dup_top then op_name Opcodes.load_attr id
attribute_code load start value id = start then value then op_name Opcodes.load_attr id
attribute_code aug_store start value id =
    start then emit_op Opcodes.rot_two then op_name Opcodes.store_attr id
attribute_code store start value id = start then value then op_name Opcodes.store_attr id
attribute_code del start value id = start then value then op_name Opcodes.delete_attr id
attribute_code param start value id = λ c. none

-- The Subscript case in each context, with the code of its value and that of its index.
abbrev pub subscript_code : ExprContext → Code → Code → Code → Code
subscript_code aug_load start value index =
    start then value then index then emit_op Opcodes.dup_top_two then emit_op Opcodes.binary_subscr
subscript_code load start value index =
    start then value then index then emit_op Opcodes.binary_subscr
subscript_code aug_store start value index =
    start then emit_op Opcodes.rot_three then emit_op Opcodes.store_subscr
subscript_code store start value index =
    start then value then index then emit_op Opcodes.store_subscr
subscript_code del start value index =
    start then value then index then emit_op Opcodes.delete_subscr
subscript_code param start value index = λ c. none

-- The Compare case, with the code of its left operand and that of its comparisons up to a label.
abbrev pub compare_chain : Code → Code → Comparisons → (ℕ → Code) → Code
compare_chain start left cs compared =
    start then left then with_labels (λ d end. compare_end d end cs (compared d))

-- The Name case.
abbrev pub name_code : Scoping → Code → Identifier → ExprContext → Code
name_code scoping start id ctx = start then name_op scoping id ctx

-- `Expr`, with its loops over the values of a BoolOp and over the comparisons.
unfoldable mutual
  unfolding set_lineno ◌then◌ emit_op emit_op_arg emit_label jump with_labels bool_opcode
      binary_opcode unary_opcode compare_code compare_end load_const op_name name_op

  pub expr : Scoping → Expr → Code
  expr scoping (Ast.bool_op n o es) =
      set_lineno n then with_labels (λ d end. values scoping (bool_opcode o) d es then emit_label d)
  expr scoping (Ast.bin_op n l o r) =
      set_lineno n then expr scoping l then expr scoping r then emit_op (binary_opcode o)
  expr scoping (Ast.unary_op n o e) = set_lineno n then expr scoping e then emit_op (unary_opcode o)
  expr scoping (Ast.if_exp n test body orelse) =
      set_lineno n
      then with_labels (λ else_branch endif_branch.
        expr scoping test
        then jump Opcodes.pop_jump_if_false else_branch
        then expr scoping body
        then jump Opcodes.jump_forward endif_branch
        then emit_label else_branch
        then expr scoping orelse
        then emit_label endif_branch)
  expr scoping (Ast.compare n l cs) =
      compare_chain (set_lineno n) (expr scoping l) cs (λ d. comparisons scoping d cs)
  expr scoping (Ast.num n x) = literal_code scoping (set_lineno n) x
  expr scoping (Ast.str n x) = literal_code scoping (set_lineno n) x
  expr scoping (Ast.bytes n x) = literal_code scoping (set_lineno n) x
  expr scoping (Ast.name_constant n x) = literal_code scoping (set_lineno n) x
  expr scoping (Ast.attribute n e id) = attribute_code load (set_lineno n) (expr scoping e) id
  expr scoping (Ast.subscript n e i) =
      subscript_code load (set_lineno n) (expr scoping e) (expr scoping i)
  expr scoping (Ast.name n id) = name_code scoping (set_lineno n) id load

  pub values : Scoping → OpCode → ℕ → Exprs → Code
  values scoping o d (last_expr e) = expr scoping e
  values scoping o d (more_exprs e es) = expr scoping e then jump o d then values scoping o d es

  pub comparisons : Scoping → ℕ → Comparisons → Code
  comparisons scoping d (last_comparison o e) =
      expr scoping e then emit_op_arg Opcodes.compare_op (compare_code o)
  comparisons scoping d (more_comparisons o e cs) =
      expr scoping e
      then emit_op Opcodes.dup_top
      then emit_op Opcodes.rot_three
      then emit_op_arg Opcodes.compare_op (compare_code o)
      then jump Opcodes.jump_if_false_or_pop d
      then comparisons scoping d cs

-- The compiler of an `ast.Expression` at this line, with the tables that its symbol table fills.
abbrev pub new_compiler : ℕ → List String → List String → List String → Compiler
new_compiler n varnames freevars cellvars = record {
  lineno = n;
  consts = [];
  names = [];
  varnames = varnames;
  freevars = freevars;
  cellvars = cellvars;
  op_codes = [];
  labels = 0;
}

-- The return that `compileAst` adds to a value on the stack.
unfoldable pub add_return : Code
unfolding emit_op ends_with_return
add_return c = if ends_with_return c.op_codes then some c else emit_op Opcodes.return_value c

-- The emission of `compileAst` on an `ast.Expression`: `Expr` and the return that is added. The
-- assembly, which comes next, is `assemble`, and the stack depth is not modelled.
unfoldable pub compile_expression : Scoping → Expr → Code
unfolding expr add_return ◌then◌
compile_expression scoping e = expr scoping e then add_return
