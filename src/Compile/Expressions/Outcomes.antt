-- ===== src/Compile/Expressions/Outcomes.antt =====
-- compile/compile.go: how the pieces of a conditional expression, a BoolOp and a Compare leave, put
-- together.
use taipan.Prelude.{
  ℕ, ◌≡◌, refl, ap, ◌∙◌, Bool, true, false, not, List, ◌∷◌, ◌==◌, arith, if◌then◌else◌, String,
}
use taipan.Exceptions.{Result, ok, err, ◌>>=◌}
use taipan.Ast
use taipan.Ast.{
  BoolOpNumber, CmpOp, Expr, Exprs, Comparisons, last_expr, more_exprs, last_comparison,
  more_comparisons,
}
use taipan.Vm.State.{Object}
use taipan.Vm.Stack.{rot_two, rot_three, dup_top, drop_top}
use taipan.Vm.Dispatch.{Machine}
use taipan.Compile.Expressions.Meaning.{stops, compare_by, eval, eval_values, eval_comparisons}
use taipan.Compile.Expressions.Flow.{Program, Outcome, gives, jumps, ◌and_then◌, catches}
use taipan.Compile.Expressions.Operated.{outcome_of, one, two, moved}
use taipan.Compile.Expressions.Branched.{popped, kept, truth_of, jumps_if}

module _ (m : Machine) (p : Program) where
  same_label : (d : ℕ) → (d == d) ≡ true
  same_label d = ground arith

  catches_same : (d : ℕ) (s : List Object) → catches m p d (jumps d s) ≡ gives s
  catches_same d s = rw (same_label d) refl

  catches_other :
      (d e : ℕ) (s : List Object) → (d == e) ≡ false → catches m p d (jumps e s) ≡ jumps e s
  catches_other d e s h = rw h refl

  catches-outcome_of :
      (d : ℕ) (r : Result Object) (s : List Object)
      → catches m p d (outcome_of r s) ≡ outcome_of r s
  catches-outcome_of d (ok x) s = refl
  catches-outcome_of d (err e) s = refl

  -- The stack under a unary operator, and under a binary one.
  pub unary-outcome :
      (s : List Object) (r : Result Object) (f : Object → Result Object)
      → (outcome_of r s and_then one f) ≡ outcome_of (r >>= λ a. f a) s
  unary-outcome s (ok a) f = refl
  unary-outcome s (err e) f = refl

  pub binary-outcome :
      (s : List Object) (r q : Result Object) (f : Object → Object → Result Object)
      → ((outcome_of r s and_then λ t. outcome_of q t) and_then two f)
        ≡ outcome_of (r >>= λ a. q >>= λ b. f a b) s
  binary-outcome s (ok a) (ok b) f = refl
  binary-outcome s (ok a) (err e) f = refl
  binary-outcome s (err e) q f = refl

  -- The two branches of a conditional expression meet at its end.
  branch :
      (d e : ℕ) (s : List Object) (body orelse : Result Object) (b : Bool)
      → (d == e) ≡ false
      → catches m p e (
          catches m p d ((jumps_if (not b) d s s and_then λ t. outcome_of body t) and_then jumps e)
          and_then λ t. outcome_of orelse t)
        ≡ outcome_of (if b then body else orelse) s
  branch d e s (ok x) orelse true h =
      ap (λ o. catches m p e (o and_then λ t. outcome_of orelse t)) (catches_other d e (x ∷ s) h)
      ∙ catches_same e (x ∷ s)
  branch d e s (err x) orelse true h = refl
  branch d e s body orelse false h =
      ap (λ o. catches m p e (o and_then λ t. outcome_of orelse t)) (catches_same d s)
      ∙ catches-outcome_of e orelse s

  decide :
      (d e : ℕ) (s : List Object) (body orelse : Result Object) (t : Result Bool)
      → (d == e) ≡ false
      → catches m p e (
          catches m p d (
            (truth_of t (λ b. jumps_if (not b) d s s) and_then λ u. outcome_of body u)
            and_then jumps e)
          and_then λ u. outcome_of orelse u)
        ≡ outcome_of (t >>= λ b. if b then body else orelse) s
  decide d e s body orelse (ok b) h = branch d e s body orelse b h
  decide d e s body orelse (err x) h = refl

  pub if_exp-outcome :
      (d e : ℕ) (s : List Object) (test body orelse : Result Object)
      → (d == e) ≡ false
      → catches m p e (
          catches m p d (
            ((outcome_of test s and_then popped m p d) and_then λ t. outcome_of body t)
            and_then jumps e)
          and_then λ t. outcome_of orelse t)
        ≡ outcome_of (test >>= λ x. m.ops.make_bool x >>= λ b. if b then body else orelse) s
  if_exp-outcome d e s (ok x) body orelse h = decide d e s body orelse (m.ops.make_bool x) h
  if_exp-outcome d e s (err x) body orelse h = refl

  module _ (var : String → Result Object) where
    abbrev pub values_outcome : BoolOpNumber → ℕ → Exprs → List Object → Outcome
    values_outcome o d (last_expr e) s = outcome_of (eval m.ops var e) s
    values_outcome o d (more_exprs e es) s =
        (outcome_of (eval m.ops var e) s and_then kept m p o d) and_then values_outcome o d es

    stop_or_go :
        (d : ℕ) (x : Object) (s : List Object) (b : Bool) (f : List Object → Outcome)
        (r : Result Object)
        → catches m p d (f s) ≡ outcome_of r s
        → catches m p d (jumps_if b d (x ∷ s) s and_then f) ≡ outcome_of (if b then ok x else r) s
    stop_or_go d x s true f r h = catches_same d (x ∷ s)
    stop_or_go d x s false f r h = h

    truth_or_go :
        (o : BoolOpNumber) (d : ℕ) (x : Object) (s : List Object) (t : Result Bool)
        (f : List Object → Outcome) (r : Result Object)
        → catches m p d (f s) ≡ outcome_of r s
        → catches m p d (truth_of t (λ b. jumps_if (stops o b) d (x ∷ s) s) and_then f)
          ≡ outcome_of (t >>= λ b. if stops o b then ok x else r) s
    truth_or_go o d x s (ok b) f r h = stop_or_go d x s (stops o b) f r h
    truth_or_go o d x s (err e) f r h = refl

    value_or_go :
        (o : BoolOpNumber) (d : ℕ) (s : List Object) (q : Result Object) (f : List Object → Outcome)
        (r : Result Object)
        → catches m p d (f s) ≡ outcome_of r s
        → catches m p d ((outcome_of q s and_then kept m p o d) and_then f)
          ≡ outcome_of (q >>= λ x. m.ops.make_bool x >>= λ b. if stops o b then ok x else r) s
    value_or_go o d s (ok x) f r h = truth_or_go o d x s (m.ops.make_bool x) f r h
    value_or_go o d s (err e) f r h = refl

    pub catches-values_outcome :
        (o : BoolOpNumber) (d : ℕ) (es : Exprs) (s : List Object)
        → catches m p d (values_outcome o d es s) ≡ outcome_of (eval_values m.ops var o es) s
    unfolding eval
    catches-values_outcome o d (last_expr e) s = catches-outcome_of d (eval m.ops var e) s
    catches-values_outcome o d (more_exprs e es) s =
        value_or_go o d s (eval m.ops var e) (values_outcome o d es) _
          (catches-values_outcome o d es s)

    abbrev pub comparisons_outcome : ℕ → Comparisons → List Object → Outcome
    comparisons_outcome d (last_comparison o e) s =
        outcome_of (eval m.ops var e) s and_then two (compare_by m.ops o)
    comparisons_outcome d (more_comparisons o e cs) s =
        ((((outcome_of (eval m.ops var e) s and_then λ t. moved (dup_top t)) and_then λ t.
        moved (rot_three t))
            and_then two (compare_by m.ops o))
          and_then kept m p Ast.and d)
        and_then comparisons_outcome d cs

    -- What follows more than one comparison.
    abbrev pub ended : ℕ → ℕ → Outcome → Outcome
    ended d end o = catches m p end (
        (catches m p d (o and_then jumps end) and_then λ t. moved (rot_two t)) and_then λ t.
        moved (drop_top t))

    pub last-outcome :
        (s : List Object) (a : Object) (r : Result Object) (o : CmpOp)
        → (outcome_of r (a ∷ s) and_then two (compare_by m.ops o))
          ≡ outcome_of (r >>= λ b. compare_by m.ops o a b) s
    last-outcome s a (ok b) o = refl
    last-outcome s a (err e) o = refl

    module _ (d end : ℕ) (other : (d == end) ≡ false) where
      ended-gives : (x : Object) (s : List Object) → ended d end (gives (x ∷ s)) ≡ gives (x ∷ s)
      ended-gives x s =
          ap
            (λ o.
              catches m p end
                ((o and_then λ t. moved (rot_two t)) and_then λ t. moved (drop_top t)))
            (catches_other d end (x ∷ s) other)
          ∙ catches_same end (x ∷ s)

      ended-outcome_of :
          (r : Result Object) (s : List Object) → ended d end (outcome_of r s) ≡ outcome_of r s
      ended-outcome_of (ok x) s = ended-gives x s
      ended-outcome_of (err e) s = refl

      ended-jumps :
          (x b : Object) (s : List Object) → ended d end (jumps d (x ∷ b ∷ s)) ≡ gives (x ∷ s)
      ended-jumps x b s =
          ap
            (λ o.
              catches m p end
                ((o and_then λ t. moved (rot_two t)) and_then λ t. moved (drop_top t)))
            (catches_same d (x ∷ b ∷ s))

      chain_bool :
          (s : List Object) (b r : Object) (t : Bool) (f : List Object → Outcome)
          (rest : Result Object)
          → ended d end (f (b ∷ s)) ≡ outcome_of rest s
          → ended d end (jumps_if (not t) d (r ∷ b ∷ s) (b ∷ s) and_then f)
            ≡ outcome_of (if t then rest else ok r) s
      chain_bool s b r true f rest h = h
      chain_bool s b r false f rest h = ended-jumps r b s

      chain_truth :
          (s : List Object) (b r : Object) (t : Result Bool) (f : List Object → Outcome)
          (rest : Result Object)
          → ended d end (f (b ∷ s)) ≡ outcome_of rest s
          → ended d end
              (truth_of t (λ v. jumps_if (stops Ast.and v) d (r ∷ b ∷ s) (b ∷ s)) and_then f)
            ≡ outcome_of (t >>= λ v. if v then rest else ok r) s
      unfolding stops
      chain_truth s b r (ok t) f rest h = chain_bool s b r t f rest h
      chain_truth s b r (err e) f rest h = refl

      chain_compared :
          (s : List Object) (b : Object) (q : Result Object) (f : List Object → Outcome)
          (rest : Result Object)
          → ended d end (f (b ∷ s)) ≡ outcome_of rest s
          → ended d end ((outcome_of q (b ∷ s) and_then kept m p Ast.and d) and_then f)
            ≡ outcome_of (q >>= λ r. m.ops.make_bool r >>= λ t. if t then rest else ok r) s
      chain_compared s b (ok r) f rest h = chain_truth s b r (m.ops.make_bool r) f rest h
      chain_compared s b (err e) f rest h = refl

      chain_operand :
          (s : List Object) (a : Object) (o : CmpOp) (q : Result Object) (f : List Object → Outcome)
          (rest : Object → Result Object)
          → ((b : Object) → ended d end (f (b ∷ s)) ≡ outcome_of (rest b) s)
          → ended d end (
              ((((outcome_of q (a ∷ s) and_then λ t. moved (dup_top t)) and_then λ t.
              moved (rot_three t))
                  and_then two (compare_by m.ops o))
                and_then kept m p Ast.and d)
              and_then f)
            ≡ outcome_of
                (q >>= λ b. compare_by m.ops o a b >>= λ r.
                  m.ops.make_bool r >>= λ t. if t then rest b else ok r)
                s
      chain_operand s a o (ok b) f rest h =
          chain_compared s b (compare_by m.ops o a b) f (rest b) (h b)
      chain_operand s a o (err e) f rest h = refl

      pub ended-comparisons_outcome :
          (cs : Comparisons) (a : Object) (s : List Object)
          → ended d end (comparisons_outcome d cs (a ∷ s))
            ≡ outcome_of (eval_comparisons m.ops var a cs) s
      unfolding eval
      ended-comparisons_outcome (last_comparison o e) a s =
          ap (ended d end) (last-outcome s a (eval m.ops var e) o) ∙ ended-outcome_of _ s
      ended-comparisons_outcome (more_comparisons o e cs) a s =
          chain_operand s a o (eval m.ops var e) (comparisons_outcome d cs)
            (λ b. eval_comparisons m.ops var b cs) (λ b. ended-comparisons_outcome cs b s)
