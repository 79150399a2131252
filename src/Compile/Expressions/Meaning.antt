-- ===== src/Compile/Expressions/Meaning.antt =====
-- What an expression means: its value, or the exception that is raised, straight from the syntax
-- tree. compile/compile.go and vm/eval.go are measured against it.
use taipan.Prelude.{ℕ, Bool, not, Option, none, some, List, String, get_elem?, if◌then◌else◌}
use taipan.Exceptions.{Result, ok, ◌>>=◌}
use taipan.Ast
use taipan.Ast.{
  BoolOpNumber, CmpOp, Expr, Exprs, Comparisons, last_expr, more_exprs, last_comparison,
  more_comparisons,
}
use taipan.Vm.State.{Object}
use taipan.Vm.Operators.{Operations}
use taipan.Vm.Names.{FrameNames, lookup, lookup_global, found}
use taipan.Compile.Emission.{
  Scoping, OpType, op_fast, op_global, op_deref, op_name_op, op_type, find_id,
}

-- `and` stops at the first value that is false, `or` at the first that is true.
unfoldable pub stops : BoolOpNumber → Bool → Bool
stops Ast.and b = not b
stops Ast.or b = b

unfoldable pub compare_by : Operations → CmpOp → Object → Object → Result Object
compare_by ops Ast.eq a b = ops.eq a b
compare_by ops Ast.not_eq a b = ops.ne a b
compare_by ops Ast.lt a b = ops.lt a b
compare_by ops Ast.lt_e a b = ops.le a b
compare_by ops Ast.gt a b = ops.gt a b
compare_by ops Ast.gt_e a b = ops.ge a b
compare_by ops Ast.is a b = ok (ops.new_bool (ops.identical a b))
compare_by ops Ast.is_not a b = ok (ops.new_bool (not (ops.identical a b)))
compare_by ops Ast.contained a b = ops.sequence_contains b a >>= λ found. ok (ops.new_bool found)
compare_by ops Ast.not_contained a b =
    ops.sequence_contains b a >>= λ found. ok (ops.new_bool (not found))

abbrev pub joined : Option (Option Object) → Option Object
joined none = none
joined (some x) = x

-- A local variable's slot is the place of its name in the code's table; a name without a slot has
-- no value.
unfoldable pub slot : Option ℕ → List (Option Object) → Option Object
slot none vars = none
slot (some i) vars = joined (get_elem? vars i)

module _ (frame : FrameNames) (varnames : List String) where
  unfoldable pub value_of : OpType → String → Option Object
  unfolding slot lookup lookup_global find_id
  value_of op_fast id = slot (find_id id 0 varnames) frame.local_vars
  value_of op_global id = lookup_global frame id
  value_of op_name_op id = lookup frame id
  value_of op_deref id = none

  -- The value of a variable that no cell holds.
  unfoldable pub variable : Scoping → String → Result Object
  unfolding value_of op_type
  variable scoping id =
      found (value_of (op_type (scoping.get_scope id) scoping.block_type scoping.unoptimized) id)

unfoldable mutual
  unfolding stops compare_by

  pub eval : Operations → (String → Result Object) → Expr → Result Object
  eval ops var (Ast.bool_op n o es) = eval_values ops var o es
  eval ops var (Ast.bin_op n l o r) =
      eval ops var l >>= λ a. eval ops var r >>= λ b. ops.binary o a b
  eval ops var (Ast.unary_op n o e) = eval ops var e >>= λ a. ops.unary o a
  eval ops var (Ast.if_exp n test body orelse) = eval ops var test >>= λ x.
      ops.make_bool x >>= λ b. if b then eval ops var body else eval ops var orelse
  eval ops var (Ast.compare n l cs) = eval ops var l >>= λ a. eval_comparisons ops var a cs
  eval ops var (Ast.num n x) = ok x
  eval ops var (Ast.str n x) = ok x
  eval ops var (Ast.bytes n x) = ok x
  eval ops var (Ast.name_constant n x) = ok x
  eval ops var (Ast.attribute n e id) = eval ops var e >>= λ a. ops.get_attr a id
  eval ops var (Ast.subscript n e i) =
      eval ops var e >>= λ a. eval ops var i >>= λ b. ops.get_item a b
  eval ops var (Ast.name n id) = var id

  -- The values up to the one that stops.
  pub eval_values : Operations → (String → Result Object) → BoolOpNumber → Exprs → Result Object
  eval_values ops var o (last_expr e) = eval ops var e
  eval_values ops var o (more_exprs e es) = eval ops var e >>= λ x.
      ops.make_bool x >>= λ b. if stops o b then ok x else eval_values ops var o es

  -- `a op b` up to the comparison that is false; each operand is evaluated once.
  pub eval_comparisons :
      Operations → (String → Result Object) → Object → Comparisons → Result Object
  eval_comparisons ops var a (last_comparison o e) = eval ops var e >>= λ b. compare_by ops o a b
  eval_comparisons ops var a (more_comparisons o e cs) = eval ops var e >>= λ b.
      compare_by ops o a b >>= λ r.
      ops.make_bool r >>= λ t. if t then eval_comparisons ops var b cs else ok r
