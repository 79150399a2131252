-- ===== src/Ast.antt =====
-- ast/ast.go: the syntax tree of the expressions that are evaluated. A node starts with its line
-- number, and its contexts are Load. The lists of a BoolOp and of a Compare, which the parser never
-- leaves empty, have a last element in place of an empty list, and a Compare keeps each operator
-- with its comparator. A Subscript's slice is an Index. A literal's object is the one the parser has
-- made.
use taipan.Prelude.{ℕ, String}
use taipan.Vm.State.{Object}

abbrev pub Identifier : Type 0
Identifier = String

pub data ExprContext : Type 0 where
  load store del aug_load aug_store param : ExprContext

pub data BoolOpNumber : Type 0 where
  and or : BoolOpNumber

pub data OperatorNumber : Type 0 where
  add sub mult div modulo pow l_shift r_shift bit_or bit_xor bit_and floor_div : OperatorNumber

pub data UnaryOpNumber : Type 0 where
  invert u_not u_add u_sub : UnaryOpNumber

pub data CmpOp : Type 0 where
  eq not_eq lt lt_e gt gt_e is is_not contained not_contained : CmpOp

mutual
  pub data Expr : Type 0 where
    bool_op : ℕ → BoolOpNumber → Exprs → Expr
    bin_op : ℕ → Expr → OperatorNumber → Expr → Expr
    unary_op : ℕ → UnaryOpNumber → Expr → Expr
    if_exp : ℕ → Expr → Expr → Expr → Expr
    compare : ℕ → Expr → Comparisons → Expr
    num str bytes name_constant : ℕ → Object → Expr
    attribute : ℕ → Expr → Identifier → Expr
    subscript : ℕ → Expr → Expr → Expr
    name : ℕ → Identifier → Expr

  pub data Exprs : Type 0 where
    last_expr : Expr → Exprs
    more_exprs : Expr → Exprs → Exprs

  pub data Comparisons : Type 0 where
    last_comparison : CmpOp → Expr → Comparisons
    more_comparisons : CmpOp → Expr → Comparisons → Comparisons
