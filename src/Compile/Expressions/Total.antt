-- ===== src/Compile/Expressions/Total.antt =====
-- compile/compile.go: the panics of the compiler, on expressions.
use mathlib.Core.Option
use taipan.Prelude.{ℕ, ◌≡◌, ◌↔◌, String, refl, false, arith, Option, none, some}
use taipan.Ast
use taipan.Ast.{
  BoolOpNumber, OperatorNumber, UnaryOpNumber, Expr, Exprs, Comparisons, last_expr, more_exprs,
  last_comparison, more_comparisons, load,
}
use taipan.Opcodes
use taipan.Opcodes.{OpCode, byte, has_arg}
use taipan.Compile.Emission.{Compiler, Scoping, ◌then◌, reserved}
use taipan.Compile.Expressions.{
  expr, values, comparisons, bool_opcode, compare_code, add_return, compile_expression,
}
use taipan.Compile.Expressions.Last.{expr-EndsOpen, EndsOpen}
use taipan.Compile.Expressions.Panics.{
  Compiles-then, Compiles-op, Compiles-label, Compiles-lineno, Compiles-labels, Compiles-bool,
  Compiles-pop_jump, Compiles-forward, Compiles-binary, Compiles-unary, Compiles-const,
  Compiles-op_name, Compiles-subscr, Compiles-dup_top, Compiles-rot_three, Compiles-compare_op,
  Compiles-name_op, Compiles-compare_end, Compiles,
}
use taipan.Compile.Expressions.Allowed.{
  IsOrdinary, IsAllowed, AreAllowed, CompareAllowed, Demands-expr, Demands_first,
}

not_reserved : (id : String) → IsOrdinary id → reserved id ≡ false
not_reserved id h = ground (arith, h)

mutual
  unfolding expr

  Compiles-expr : (scoping : Scoping) (e : Expr) → IsAllowed e → Compiles (expr scoping e)
  Compiles-expr scoping (Ast.bool_op n o es) h = Compiles-then _ _ (Compiles-lineno n) (
      Compiles-labels _
        λ d end. Compiles-then _ _ (Compiles-values scoping o d es h) (Compiles-label d))
  Compiles-expr scoping (Ast.bin_op n l o r) h =
      Compiles-then _ _
        (Compiles-then _ _ (Compiles-then _ _ (Compiles-lineno n) (Compiles-expr scoping l h.0))
          (Compiles-expr scoping r h.1))
        (Compiles-binary o)
  Compiles-expr scoping (Ast.unary_op n o e) h =
      Compiles-then _ _ (Compiles-then _ _ (Compiles-lineno n) (Compiles-expr scoping e h))
        (Compiles-unary o)
  Compiles-expr scoping (Ast.if_exp n test body orelse) h = Compiles-then _ _ (Compiles-lineno n) (
      Compiles-labels _ λ d e.
        Compiles-then _ _
          (Compiles-then _ _
            (Compiles-then _ _
              (Compiles-then _ _
                (Compiles-then _ _
                  (Compiles-then _ _ (Compiles-expr scoping test h.0) (Compiles-pop_jump d))
                  (Compiles-expr scoping body h.1))
                (Compiles-forward e))
              (Compiles-label d))
            (Compiles-expr scoping orelse h.2))
          (Compiles-label e))
  Compiles-expr scoping (Ast.compare n l cs) h =
      Compiles-then _ _ (Compiles-then _ _ (Compiles-lineno n) (Compiles-expr scoping l h.0)) (
        Compiles-labels _
          λ d end. Compiles-compare_end d end cs _ (Compiles-comparisons scoping d cs h.1))
  Compiles-expr scoping (Ast.num n x) h =
      Compiles-then _ _ (Compiles-lineno n) (Compiles-const scoping x)
  Compiles-expr scoping (Ast.str n x) h =
      Compiles-then _ _ (Compiles-lineno n) (Compiles-const scoping x)
  Compiles-expr scoping (Ast.bytes n x) h =
      Compiles-then _ _ (Compiles-lineno n) (Compiles-const scoping x)
  Compiles-expr scoping (Ast.name_constant n x) h =
      Compiles-then _ _ (Compiles-lineno n) (Compiles-const scoping x)
  Compiles-expr scoping (Ast.attribute n e id) h =
      Compiles-then _ _ (Compiles-then _ _ (Compiles-lineno n) (Compiles-expr scoping e h))
        (Compiles-op_name id)
  Compiles-expr scoping (Ast.subscript n e i) h =
      Compiles-then _ _
        (Compiles-then _ _ (Compiles-then _ _ (Compiles-lineno n) (Compiles-expr scoping e h.0))
          (Compiles-expr scoping i h.1))
        Compiles-subscr
  Compiles-expr scoping (Ast.name n id) h =
      Compiles-then _ _ (Compiles-lineno n) (Compiles-name_op scoping id (not_reserved id h))

  Compiles-values :
      (scoping : Scoping) (o : BoolOpNumber) (d : ℕ) (es : Exprs)
      → AreAllowed es
      → Compiles (values scoping (bool_opcode o) d es)
  Compiles-values scoping o d (last_expr e) h = Compiles-expr scoping e h
  Compiles-values scoping o d (more_exprs e es) h =
      Compiles-then _ _ (Compiles-then _ _ (Compiles-expr scoping e h.0) (Compiles-bool o d))
        (Compiles-values scoping o d es h.1)

  Compiles-comparisons :
      (scoping : Scoping) (d : ℕ) (cs : Comparisons)
      → CompareAllowed cs
      → Compiles (comparisons scoping d cs)
  Compiles-comparisons scoping d (last_comparison o e) h =
      Compiles-then _ _ (Compiles-expr scoping e h) (Compiles-compare_op (compare_code o))
  Compiles-comparisons scoping d (more_comparisons o e cs) h =
      Compiles-then _ _
        (Compiles-then _ _
          (Compiles-then _ _
            (Compiles-then _ _ (Compiles-then _ _ (Compiles-expr scoping e h.0) Compiles-dup_top)
              Compiles-rot_three)
            (Compiles-compare_op (compare_code o)))
          (Compiles-bool Ast.and d))
        (Compiles-comparisons scoping d cs h.1)

return_compiles :
    (r : Option Compiler) {c : Compiler}
    → EndsOpen r
    → r ≡ some c
    → (c' : Compiler) × (Option.bind r add_return ≡ some c')
unfolding Option.bind add_return has_arg byte
return_compiles none h e = cc
return_compiles (some c) h e = rw h (Compiles-op Opcodes.return_value refl c)

-- The compiler emits the code of an expression and of its return exactly where no name in the
-- expression is `None`, `True` or `False`, whatever it has emitted before and whatever the scopes of
-- the names are: no other expression of the modelled kinds, with all contexts Load, makes the
-- emission panic. The assembly of what is emitted and its stack depth, which come after and can
-- panic too, are not part of this.
pub compile_expression-IsAllowed :
    (scoping : Scoping) (e : Expr) (c : Compiler)
    → ((c' : Compiler) × (compile_expression scoping e c ≡ some c')) ↔ IsAllowed e
unfolding compile_expression ◌then◌
compile_expression-IsAllowed scoping e c = (
  λ (c', f). Demands_first (expr scoping e c) add_return (Demands-expr scoping e c) f,
  λ h. return_compiles _ (expr-EndsOpen scoping e c) (Compiles-expr scoping e h c).1,
)
