-- ===== src/Compile/Expressions/Correct.antt =====
-- compile/compile.go, compile/instructions.go and vm/eval.go together: the code of an expression, run
-- by the machine, against what the expression means.
use taipan.Prelude.{
  subst, some, ℕ, ◌≡◌, refl, true, false, List, [], ◌∷◌, ◌==◌, arith, String, ◌<◌, ◌⊎◌, inl, inr,
  if◌then◌else◌,
}
use taipan.Exceptions.{Result, ok, err, ◌>>=◌}
use taipan.Ast
use taipan.Ast.{
  BoolOpNumber, CmpOp, OperatorNumber, UnaryOpNumber, Expr, Exprs, Comparisons, last_expr,
  more_exprs, last_comparison, more_comparisons,
}
use taipan.Opcodes
use taipan.Opcodes.{byte, has_arg}
use taipan.Vm.State.{Object, Vm}
use taipan.Vm.Dispatch.{Machine}
use taipan.Compile.Emission.{
  Compiler, Scoping, Code, ◌then◌, jump_kind, absolute, emit_op_arg, jump, emit_label,
}
use taipan.Compile.Expressions.{
  expr, values, comparisons, compare_end, bool_opcode, binary_opcode, unary_opcode, compare_code,
}
use taipan.Compile.Expressions.Meaning.{compare_by, eval, eval_comparisons, variable}
use taipan.Compile.Expressions.Flow.{Lands, At, Reaches, Program, Outcome, unknown, ◌and_then◌}
use taipan.Compile.Expressions.Emitted.{TakesArg}
use taipan.Compile.Expressions.Jumping.{HasLabel}
use taipan.Compile.Expressions.Operated.{
  outcome_of, two, Continues-binary, Continues-unary, Continues-binary_subscr, Continues-compare_op,
  Continues-rot_two, Continues-rot_three, Continues-dup_top, Continues-pop_top,
}
use taipan.Compile.Expressions.Branched.{popped, kept, Continues-pop_jump_if_false, Continues-bool}
use taipan.Compile.Expressions.Pieces.{
  here, Done, Fits, Does, Done-ext, Done-known, Does-then, Does-op, Does-op_arg, Does-jump_abs,
  Does-jump_forward, Does-label, Does-set_lineno, Does-with_labels,
}
use taipan.Compile.Expressions.Named.{
  Linked, captured, Does-load_const, Does-load_attr, Does-name_op,
}
use taipan.Compile.Expressions.Outcomes.{
  unary-outcome, binary-outcome, if_exp-outcome, values_outcome, catches-values_outcome,
  comparisons_outcome, ended, last-outcome, ended-comparisons_outcome,
}

module _ (m : Machine) (p : Program) (linked : Linked m p) (scoping : Scoping)
    (distinct : (a b : Object) → scoping.same_type a b ≡ true → scoping.eq a b ≡ ok true → a ≡ b)
    (in_no_cell : (id : String) → captured (scoping.get_scope id) ≡ false) where
  abbrev var : String → Result Object
  var = variable m.frame p.varnames scoping

  abbrev evaluates : Expr → List Object → Outcome
  evaluates e s = outcome_of (eval m.ops var e) s

  Does-ext :
      (a : Code) (f g : List Object → Outcome)
      → ((s : List Object) → f s ≡ g s)
      → Does m p a f
      → Does m p a g
  Does-ext a f g e h c = Done-ext m p c (a c) f g e (h c)

  bool_kind : (o : BoolOpNumber) → jump_kind (bool_opcode o) ≡ absolute
  unfolding jump_kind bool_opcode
  bool_kind Ast.and = refl
  bool_kind Ast.or = refl

  bool_takes : (o : BoolOpNumber) → TakesArg m p (bool_opcode o)
  unfolding bool_opcode byte has_arg
  bool_takes Ast.and = (refl, refl)
  bool_takes Ast.or = (refl, refl)

  Does-bool :
      (o : BoolOpNumber) (d : ℕ) → HasLabel m p d → Does m p (jump (bool_opcode o) d) (kept m p o d)
  Does-bool o d there =
      Does-jump_abs m p (bool_opcode o) d (kept m p o d) (bool_kind o) (bool_takes o) there
        (λ k a s t. Continues-bool m p o k a d s t)

  Does-pop_jump :
      (d : ℕ) → HasLabel m p d → Does m p (jump Opcodes.pop_jump_if_false d) (popped m p d)
  unfolding byte has_arg jump_kind
  Does-pop_jump d there =
      Does-jump_abs m p Opcodes.pop_jump_if_false d (popped m p d) refl (refl, refl) there
        (λ k a s t. Continues-pop_jump_if_false m p k a d s t)

  compare_small : (o : CmpOp) → compare_code o < 0x8000_0000
  unfolding compare_code
  compare_small Ast.eq = omega arith
  compare_small _ = omega arith

  Does-compare :
      (o : CmpOp)
      → Does m p (emit_op_arg Opcodes.compare_op (compare_code o)) (two (compare_by m.ops o))
  unfolding byte has_arg
  Does-compare o =
      Does-op_arg m p Opcodes.compare_op (compare_code o) _ (refl, refl) (compare_small o)
        (λ k s. Continues-compare_op m p k s o)

  -- Where the code of the operands does what they mean, so does the code of the expression.
  Does-if_exp :
      (test body orelse : Code) (r q t : Result Object) (d e : ℕ)
      → (d == e) ≡ false
      → Does m p test (outcome_of r)
      → Does m p body (outcome_of q)
      → Does m p orelse (outcome_of t)
      → Does m p
          (test
            then jump Opcodes.pop_jump_if_false d
            then body
            then jump Opcodes.jump_forward e
            then emit_label d
            then orelse
            then emit_label e)
          (outcome_of (r >>= λ x. m.ops.make_bool x >>= λ b. if b then q else t))
  Does-if_exp test body orelse r q t d e other h₁ h₂ h₃ =
      Does-ext _ _ _ (λ s. if_exp-outcome m p d e s r q t other)
        (Does-label m p _ e _ λ at_e.
          Does-then m p _ _ _ _
            (Does-label m p _ d _ λ at_d.
              Does-then m p _ _ _ _
                (Does-then m p _ _ _ _ (Does-then m p _ _ _ _ h₁ (Does-pop_jump d at_d)) h₂)
                (Does-jump_forward m p e at_e))
            h₃)

  -- The label behind the comparisons is there where there are more than one.
  abbrev Labelled : Comparisons → ℕ → Type 0
  Labelled (last_comparison o e) d = Unit
  Labelled (more_comparisons o e cs) d = HasLabel m p d

  labelled : (cs : Comparisons) (d : ℕ) → HasLabel m p d → Labelled cs d
  labelled (last_comparison o e) d h = tt
  labelled (more_comparisons o e cs) d h = h

  abbrev finished : ℕ → ℕ → Comparisons → List Object → Outcome
  finished d end (last_comparison o e) s = comparisons_outcome m p var d (last_comparison o e) s
  finished d end (more_comparisons o e cs) s =
      ended m p var d end (comparisons_outcome m p var d (more_comparisons o e cs) s)

  -- The comparisons with the operand on top of the stack.
  abbrev compared : Comparisons → List Object → Outcome
  compared cs (a ∷ s) = outcome_of (eval_comparisons m.ops var a cs) s
  compared cs [] = unknown

  compared-outcome :
      (s : List Object) (r : Result Object) (cs : Comparisons)
      → (outcome_of r s and_then compared cs)
        ≡ outcome_of (r >>= λ a. eval_comparisons m.ops var a cs) s
  compared-outcome s (ok a) cs = refl
  compared-outcome s (err e) cs = refl

  finished-compared :
      (d end : ℕ) (cs : Comparisons) (s : List Object)
      → (d == end) ≡ false
      → (finished d end cs s ≡ compared cs s) ⊎ (compared cs s ≡ unknown)
  unfolding eval
  finished-compared d end cs [] other = inr refl
  finished-compared d end (last_comparison o e) (a ∷ s) other =
      inl (last-outcome m p var s a (eval m.ops var e) o)
  finished-compared d end (more_comparisons o e cs) (a ∷ s) other =
      inl (ended-comparisons_outcome m p var d end other (more_comparisons o e cs) a s)

  Does-compare_end :
      (d end : ℕ) (cs : Comparisons) (a : Code)
      → (Labelled cs d → Does m p a (comparisons_outcome m p var d cs))
      → Does m p (compare_end d end cs a) (finished d end cs)
  unfolding compare_end byte has_arg
  Does-compare_end d end (last_comparison o e) a h = h tt
  Does-compare_end d end (more_comparisons o e cs) a h = Does-label m p _ end _ λ at_end.
      Does-then m p _ _ _ _
        (Does-then m p _ _ _ _
          (Does-label m p _ d _
            λ at_d. Does-then m p _ _ _ _ (h at_d) (Does-jump_forward m p end at_end))
          (Does-op m p Opcodes.rot_two _ (λ k s. Continues-rot_two m p k 0 s)))
        (Does-op m p Opcodes.pop_top _ (λ k s. Continues-pop_top m p k 0 s))

  Does-compared :
      (d end : ℕ) (cs : Comparisons)
      → (d == end) ≡ false
      → (Labelled cs d → Does m p (comparisons scoping d cs) (comparisons_outcome m p var d cs))
      → Does m p (compare_end d end cs (comparisons scoping d cs)) (compared cs)
  Does-compared d end cs other h c =
      Done-known m p c (compare_end d end cs (comparisons scoping d cs) c) (finished d end cs)
        (compared cs) (λ s. finished-compared d end cs s other)
        (Does-compare_end d end cs (comparisons scoping d cs) h c)

  mutual
    unfolding expr eval

    expr-Does : (e : Expr) → Does m p (expr scoping e) (evaluates e)
    expr-Does (Ast.bool_op n o es) = Does-set_lineno m p n _ _ (
        Does-with_labels m p _ _ λ d end other other'.
          Does-ext _ _ _ (λ s. catches-values_outcome m p var o d es s)
            (Does-label m p _ d _ λ at_d. values-Does o d es at_d))
    expr-Does (Ast.bin_op n l o r) =
        Does-ext _ _ _ (λ s. binary-outcome m p s (eval m.ops var l) (eval m.ops var r) _)
          (Does-then m p _ _ _ _
            (Does-then m p _ _ _ _ (Does-set_lineno m p n _ _ (expr-Does l)) (expr-Does r))
            (Does-op m p (binary_opcode o) _ (λ k s. Continues-binary m p k 0 s o)))
    expr-Does (Ast.unary_op n o e) =
        Does-ext _ _ _ (λ s. unary-outcome m p s (eval m.ops var e) _)
          (Does-then m p _ _ _ _ (Does-set_lineno m p n _ _ (expr-Does e))
            (Does-op m p (unary_opcode o) _ (λ k s. Continues-unary m p k 0 s o)))
    expr-Does (Ast.if_exp n test body orelse) = Does-set_lineno m p n _ _ (
        Does-with_labels m p _ _ λ d e other other'.
          Does-if_exp _ _ _ _ _ _ d e other (expr-Does test) (expr-Does body) (expr-Does orelse))
    expr-Does (Ast.compare n l cs) =
        Does-ext _ _ _ (λ s. compared-outcome s (eval m.ops var l) cs)
          (Does-then m p _ _ _ _ (Does-set_lineno m p n _ _ (expr-Does l)) (
            Does-with_labels m p _ (compared cs)
              λ d end other other'. Does-compared d end cs other (comparisons-Does d cs)))
    expr-Does (Ast.num n x) =
        Does-set_lineno m p n _ _ (Does-load_const m p linked scoping distinct x)
    expr-Does (Ast.str n x) =
        Does-set_lineno m p n _ _ (Does-load_const m p linked scoping distinct x)
    expr-Does (Ast.bytes n x) =
        Does-set_lineno m p n _ _ (Does-load_const m p linked scoping distinct x)
    expr-Does (Ast.name_constant n x) =
        Does-set_lineno m p n _ _ (Does-load_const m p linked scoping distinct x)
    expr-Does (Ast.attribute n e id) =
        Does-ext _ _ _ (λ s. unary-outcome m p s (eval m.ops var e) _)
          (Does-then m p _ _ _ _ (Does-set_lineno m p n _ _ (expr-Does e))
            (Does-load_attr m p linked id))
    expr-Does (Ast.subscript n e i) =
        Does-ext _ _ _ (λ s. binary-outcome m p s (eval m.ops var e) (eval m.ops var i) _)
          (Does-then m p _ _ _ _
            (Does-then m p _ _ _ _ (Does-set_lineno m p n _ _ (expr-Does e)) (expr-Does i))
            (Does-op m p Opcodes.binary_subscr _ (λ k s. Continues-binary_subscr m p k 0 s)))
    expr-Does (Ast.name n id) =
        Does-set_lineno m p n _ _ (Does-name_op m p linked scoping id (in_no_cell id))

    values-Does :
        (o : BoolOpNumber) (d : ℕ) (es : Exprs)
        → HasLabel m p d
        → Does m p (values scoping (bool_opcode o) d es) (values_outcome m p var o d es)
    values-Does o d (last_expr e) there = expr-Does e
    values-Does o d (more_exprs e es) there =
        Does-then m p _ _ _ _ (Does-then m p _ _ _ _ (expr-Does e) (Does-bool o d there))
          (values-Does o d es there)

    comparisons-Does :
        (d : ℕ) (cs : Comparisons)
        → Labelled cs d
        → Does m p (comparisons scoping d cs) (comparisons_outcome m p var d cs)
    comparisons-Does d (last_comparison o e) there =
        Does-then m p _ _ _ _ (expr-Does e) (Does-compare o)
    comparisons-Does d (more_comparisons o e cs) there =
        Does-then m p _ _ _ _
          (Does-then m p _ _ _ _
            (Does-then m p _ _ _ _
              (Does-then m p _ _ _ _
                (Does-then m p _ _ _ _ (expr-Does e)
                  (Does-op m p Opcodes.dup_top _ (λ k s. Continues-dup_top m p k 0 s)))
                (Does-op m p Opcodes.rot_three _ (λ k s. Continues-rot_three m p k 0 s)))
              (Does-compare o))
            (Does-bool Ast.and d there))
          (comparisons-Does d cs (labelled cs d there))

  pub expr_correct : (e : Expr) → Does m p (expr scoping e) (λ s. outcome_of (eval m.ops var e) s)
  expr_correct e = expr-Does e

  Lands-Reaches :
      (k j : ℕ) (s : List Object) (vm : Vm) (r : Result Object)
      → Reaches m p k s (outcome_of r s) j
      → At m p k s vm
      → Lands m p vm j s r
  Lands-Reaches k j s vm (ok x) h at = h vm at
  Lands-Reaches k j s vm (err e) h at = h vm at

  -- The code that the compiler emits for an expression, wherever it stands in an assembled program:
  -- the machine that stands in front of it, with any stack, gets behind it with the expression's value
  -- pushed, or returns the exception that evaluating the expression raises. The compilation did not
  -- panic, and what is compiled behind the expression is, up to positions and jump arguments, the
  -- start of the program's instructions, with the program's tables; the tables are shorter than 2^31
  -- and each local variable has its slot, no variable is in a cell, and constants of one type that
  -- are equal are one object.
  pub expr-Lands :
      (e : Expr) (c c' : Compiler) (s : List Object) (vm : Vm)
      → expr scoping e c ≡ some c'
      → Fits m p c'
      → At m p (here m p c) s vm
      → Lands m p vm (here m p c') s (eval m.ops (variable m.frame p.varnames scoping) e)
  expr-Lands e c c' s vm f fits at =
      let v = outcome_of (eval m.ops var e) in
      let d : Done m p c (some c') v = subst (λ o. Done m p c o v) f (expr_correct e c) in
      Lands-Reaches (here m p c) (here m p c') s vm _ ((d fits).1 s) at
