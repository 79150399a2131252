-- ===== src/Compile/Expressions/Allowed.antt =====
-- compile/compile.go: the expressions that the compiler emits code for, and that it refuses all others.
use mathlib.Core.Option
use taipan.Prelude.{
  ℕ, ◌≡◌, refl, true, false, arith, Option, none, some, String, str_eq, Bool-cases, inl, inr,
}
use taipan.Ast
use taipan.Ast.{
  Expr, Exprs, Comparisons, last_expr, more_exprs, last_comparison, more_comparisons, load,
}
use taipan.Opcodes
use taipan.Compile.Emission.{
  jump, emit_label, Compiler, Code, Scoping, ◌then◌, with_labels, name_op, reserved,
}
use taipan.Compile.Expressions.{expr, values, comparisons, compare_end, bool_opcode}

abbrev pub IsOrdinary : String → Type 0
IsOrdinary id =
    (str_eq id "None" ≡ false) × (str_eq id "True" ≡ false) × (str_eq id "False" ≡ false)

-- No name is `None`, `True` or `False`, which the parser makes constants of.
abbrev mutual
  pub IsAllowed : Expr → Type 0
  IsAllowed (Ast.bool_op n o es) = AreAllowed es
  IsAllowed (Ast.bin_op n l o r) = IsAllowed l × IsAllowed r
  IsAllowed (Ast.unary_op n o e) = IsAllowed e
  IsAllowed (Ast.if_exp n test body orelse) = IsAllowed test × IsAllowed body × IsAllowed orelse
  IsAllowed (Ast.compare n l cs) = IsAllowed l × CompareAllowed cs
  IsAllowed (Ast.num n x) = Unit
  IsAllowed (Ast.str n x) = Unit
  IsAllowed (Ast.bytes n x) = Unit
  IsAllowed (Ast.name_constant n x) = Unit
  IsAllowed (Ast.attribute n e id) = IsAllowed e
  IsAllowed (Ast.subscript n e i) = IsAllowed e × IsAllowed i
  IsAllowed (Ast.name n id) = IsOrdinary id

  pub AreAllowed : Exprs → Type 0
  AreAllowed (last_expr e) = IsAllowed e
  AreAllowed (more_exprs e es) = IsAllowed e × AreAllowed es

  pub CompareAllowed : Comparisons → Type 0
  CompareAllowed (last_comparison o e) = IsAllowed e
  CompareAllowed (more_comparisons o e cs) = IsAllowed e × CompareAllowed cs

-- Where the code is emitted, `P` holds.
abbrev Demands : Type 0 → Code → Type 0
Demands P code = (c c' : Compiler) → code c ≡ some c' → P

pub Demands_first :
    {P : Type 0} (r : Option Compiler) (n : Code) {c' : Compiler}
    → ((c : Compiler) → r ≡ some c → P)
    → Option.bind r n ≡ some c'
    → P
unfolding Option.bind
Demands_first none n h e = absurd cc
Demands_first (some c) n h e = h c refl

Demands_second :
    {P : Type 0} (r : Option Compiler) (n : Code) {c' : Compiler}
    → Demands P n
    → Option.bind r n ≡ some c'
    → P
unfolding Option.bind
Demands_second none n h e = absurd cc
Demands_second (some c) n h e = h c _ e

before : {P : Type 0} (m n : Code) → Demands P m → Demands P (m then n)
unfolding ◌then◌
before m n h c c' e = Demands_first (m c) n (λ d f. h c d f) e

behind : {P : Type 0} (m n : Code) → Demands P n → Demands P (m then n)
unfolding ◌then◌
behind m n h c c' e = Demands_second (m c) n h e

Demands-with_labels :
    {P : Type 0} (f : ℕ → ℕ → Code) → ((d e : ℕ) → Demands P (f d e)) → Demands P (with_labels f)
unfolding with_labels
Demands-with_labels f h c c' e = h _ _ _ c' e

Demands-compare_end :
    {P : Type 0} (d end : ℕ) (cs : Comparisons) (a : Code)
    → Demands P a
    → Demands P (compare_end d end cs a)
unfolding compare_end
Demands-compare_end d end (last_comparison o e) a h = h
Demands-compare_end d end (more_comparisons o e cs) a h =
    before _ _ (before _ _ (before _ _ (before _ _ (before _ _ h))))

name_op_refused :
    (scoping : Scoping) (id : String) (c : Compiler)
    → reserved id ≡ true
    → name_op scoping id load c ≡ none
unfolding name_op
name_op_refused scoping id c h = rw h refl

Demands-name_op :
    (scoping : Scoping) (id : String) → Demands (IsOrdinary id) (name_op scoping id load)
Demands-name_op scoping id c c' e = elim (Bool-cases (reserved id)) [
  | inl r ↦ let refused = name_op_refused scoping id c r in absurd cc
  | inr o ↦ ground (arith, o)
]

both : {P Q : Type 0} (m : Code) → Demands P m → Demands Q m → Demands (P × Q) m
both m h k c c' e = (h c c' e, k c c' e)

-- The test, the body and the other branch of a conditional, and what stands between them.
Demands-branches :
    {P Q R : Type 0} (a j b f l o m : Code)
    → Demands P a
    → Demands Q b
    → Demands R o
    → Demands (P × Q × R) (a then j then b then f then l then o then m)
Demands-branches a j b f l o m h k g c c' e = (
  before _ m (before _ o (before _ l (before _ f (before _ b (before a j h))))) c c' e,
  before _ m (before _ o (before _ l (before _ f (behind (a then j) b k)))) c c' e,
  before _ m (behind _ o g) c c' e,
)

mutual
  unfolding expr

  pub Demands-expr : (scoping : Scoping) (e : Expr) → Demands (IsAllowed e) (expr scoping e)
  Demands-expr scoping (Ast.bool_op n o es) = behind _ _ (
      Demands-with_labels _ λ d end.
        before (values scoping (bool_opcode o) d es) (emit_label d)
          (Demands-values scoping (bool_opcode o) d es))
  Demands-expr scoping (Ast.bin_op n l o r) = before _ _ (
      both _ (before _ _ (behind _ _ (Demands-expr scoping l)))
        (behind _ _ (Demands-expr scoping r)))
  Demands-expr scoping (Ast.unary_op n o e) = before _ _ (behind _ _ (Demands-expr scoping e))
  Demands-expr scoping (Ast.if_exp n test body orelse) = behind _ _ (
      Demands-with_labels _ λ d e.
        Demands-branches (expr scoping test) (jump Opcodes.pop_jump_if_false d) (expr scoping body)
          (jump Opcodes.jump_forward e) (emit_label d) (expr scoping orelse) (emit_label e)
          (Demands-expr scoping test) (Demands-expr scoping body) (Demands-expr scoping orelse))
  Demands-expr scoping (Ast.compare n l cs) =
      both _ (before _ _ (behind _ _ (Demands-expr scoping l))) (
        behind _ _ (
          Demands-with_labels _
            λ d end. Demands-compare_end d end cs _ (Demands-comparisons scoping d cs)))
  Demands-expr scoping (Ast.num n x) = λ c c' e. tt
  Demands-expr scoping (Ast.str n x) = λ c c' e. tt
  Demands-expr scoping (Ast.bytes n x) = λ c c' e. tt
  Demands-expr scoping (Ast.name_constant n x) = λ c c' e. tt
  Demands-expr scoping (Ast.attribute n e id) = before _ _ (behind _ _ (Demands-expr scoping e))
  Demands-expr scoping (Ast.subscript n e i) = before _ _ (
      both _ (before _ _ (behind _ _ (Demands-expr scoping e)))
        (behind _ _ (Demands-expr scoping i)))
  Demands-expr scoping (Ast.name n id) = behind _ _ (Demands-name_op scoping id)

  Demands-values :
      (scoping : Scoping) (o : _) (d : ℕ) (es : Exprs)
      → Demands (AreAllowed es) (values scoping o d es)
  Demands-values scoping o d (last_expr e) = Demands-expr scoping e
  Demands-values scoping o d (more_exprs e es) =
      both _ (before _ _ (before _ _ (Demands-expr scoping e)))
        (behind _ _ (Demands-values scoping o d es))

  Demands-comparisons :
      (scoping : Scoping) (d : ℕ) (cs : Comparisons)
      → Demands (CompareAllowed cs) (comparisons scoping d cs)
  Demands-comparisons scoping d (last_comparison o e) = before _ _ (Demands-expr scoping e)
  Demands-comparisons scoping d (more_comparisons o e cs) =
      both _
        (before _ _ (before _ _ (before _ _ (before _ _ (before _ _ (Demands-expr scoping e))))))
        (behind _ _ (Demands-comparisons scoping d cs))
