-- ===== src/Compile/Expressions/Branched.antt =====
-- vm/eval.go: what the conditional jumps and the loads do to the stack.
use taipan.Prelude.{
  ℕ, suc, ◌≡◌, refl, sym, ap, subst, Bool, true, false, not, Option, some, List, [], ◌∷◌, String,
  get_elem?, if◌then◌else◌,
}
use taipan.Prelude.Int.{pos}
use taipan.Exceptions.{Result, ok, err}
use taipan.Ast
use taipan.Ast.{BoolOpNumber}
use taipan.Opcodes
use taipan.Vm.State.{Object, Vm, Effect, done}
use taipan.Vm.Dispatch.{Machine, execute}
use taipan.Vm.Jumps.{
  do_pop_jump_if_false, do_jump_if_true_or_pop, do_jump_if_false_or_pop, pop_jump, jump_or_pop,
  after_truth, jump_when,
}
use taipan.Vm.Names.{
  found, lookup, lookup_global, do_load_const, do_load_name, do_load_global, do_load_fast,
  do_load_attr, or_out_of_range, push_result, attribute_of,
}
use taipan.Compile.Instructions.{label}
use taipan.Compile.Expressions.{bool_opcode}
use taipan.Compile.Expressions.Meaning.{stops}
use taipan.Compile.Expressions.Flow.{
  Program, Outcome, gives, raises, jumps, unknown, At, Place, address,
}
use taipan.Compile.Expressions.Emitted.{Answers, Continues}
use taipan.Compile.Expressions.Operated.{outcome_of, one, with_stack, set_top-Answers, of_stack}

abbrev pub truth_of : Result Bool → (Bool → Outcome) → Outcome
truth_of (ok b) f = f b
truth_of (err e) f = raises e

-- To the label if the condition holds, and on otherwise.
abbrev pub jumps_if : Bool → ℕ → List Object → List Object → Outcome
jumps_if true d s t = jumps d s
jumps_if false d s t = gives t

module _ (m : Machine) (p : Program) where
  -- The top is popped, and its truth decides.
  abbrev pub popped : ℕ → List Object → Outcome
  popped d (x ∷ s) = truth_of (m.ops.make_bool x) (λ b. jumps_if (not b) d s s)
  popped d [] = unknown

  -- The top stays on the stack where the jump is taken.
  abbrev pub kept : BoolOpNumber → ℕ → List Object → Outcome
  kept o d (x ∷ s) = truth_of (m.ops.make_bool x) (λ b. jumps_if (stops o b) d (x ∷ s) s)
  kept o d [] = unknown

  abbrev pub Targets : ℕ → ℕ → Type 0
  Targets a d = (i : ℕ) → Place m p i (label d) → a ≡ address m p i

  -- A machine that has jumped.
  jumped :
      {j i a : ℕ} {s : List Object} {vm : Vm}
      → At m p j s vm
      → (t : List Object) → a ≡ address m p i
      → At m p i t (record vm { stack = t; lasti = pos a })
  jumped at t e = record { lasti = ap pos e; stack = refl; extended = at.extended; why = at.why }

  stay_jumped :
      {j i a : ℕ} {s : List Object} {vm : Vm}
      → At m p j s vm
      → a ≡ address m p i
      → At m p i s (record vm { lasti = pos a })
  stay_jumped at e = record {
    lasti = ap pos e;
    stack = at.stack;
    extended = at.extended;
    why = at.why;
  }

  truth-Answers :
      (j : ℕ) (vm : Vm) (r : Result Bool) (f : Bool → Outcome) (g : Bool → Effect)
      → ((b : Bool) → Answers m p j (f b) (g b))
      → Answers m p j (truth_of r f) (after_truth r vm g)
  truth-Answers j vm (ok b) f g h = h b
  truth-Answers j vm (err e) f g h = (vm, refl)

  popped-Answers :
      (j a d : ℕ) (s t : List Object) (vm : Vm)
      → Targets a d
      → At m p j t vm
      → (b : Bool)
      → Answers m p j (jumps_if b d s s) (done (jump_when b (pos a) (record vm { stack = s })))
  popped-Answers j a d s t vm h at true = λ i place. (_, refl, jumped at s (h i place))
  popped-Answers j a d s t vm h at false = (_, refl, with_stack m p at s)

  pop_jump-Answers :
      (j a d : ℕ) (s : List Object) (vm : Vm)
      → Targets a d
      → At m p j s vm
      → Answers m p j (popped d s) (pop_jump m.ops.make_bool not (pos a) s vm)
  unfolding pop_jump
  pop_jump-Answers j a d [] vm t at = tt
  pop_jump-Answers j a d (x ∷ s) vm t at =
      truth-Answers j _ (m.ops.make_bool x) _ _ λ b. popped-Answers j a d s (x ∷ s) vm t at (not b)

  pub Continues-pop_jump_if_false :
      (k a d : ℕ) (s : List Object)
      → Targets a d
      → Continues m p k s (popped d s) Opcodes.pop_jump_if_false a
  unfolding execute do_pop_jump_if_false
  Continues-pop_jump_if_false k a d s t vm at =
      of_stack m p (suc k) s _ vm (λ u. pop_jump m.ops.make_bool not (pos a) u vm) at
        (pop_jump-Answers (suc k) a d s vm t at)

  kept-Answers :
      (j a d : ℕ) (x : Object) (s : List Object) (vm : Vm)
      → Targets a d
      → At m p j (x ∷ s) vm
      → (b : Bool)
      → Answers m p j
          (jumps_if b d (x ∷ s) s)
          (done (if b then record vm { lasti = pos a } else record vm { stack = s }))
  kept-Answers j a d x s vm h at true = λ i place. (_, refl, stay_jumped at (h i place))
  kept-Answers j a d x s vm h at false = (_, refl, with_stack m p at s)

  jump_or_pop-Answers :
      (o : BoolOpNumber) (j a d : ℕ) (s : List Object) (vm : Vm)
      → Targets a d
      → At m p j s vm
      → Answers m p j (kept o d s) (jump_or_pop m.ops.make_bool (stops o) (pos a) s vm)
  unfolding jump_or_pop
  jump_or_pop-Answers o j a d [] vm t at = tt
  jump_or_pop-Answers o j a d (x ∷ s) vm t at =
      truth-Answers j _ (m.ops.make_bool x) _ _ λ b. kept-Answers j a d x s vm t at (stops o b)

  execute-bool :
      (o : BoolOpNumber) (a : ℕ) (vm : Vm)
      → execute m (bool_opcode o) (pos a) vm
        ≡ jump_or_pop m.ops.make_bool (stops o) (pos a) vm.stack vm
  unfolding execute bool_opcode do_jump_if_true_or_pop do_jump_if_false_or_pop stops
  execute-bool Ast.and a vm = refl
  execute-bool Ast.or a vm = refl

  pub Continues-bool :
      (o : BoolOpNumber) (k a d : ℕ) (s : List Object)
      → Targets a d
      → Continues m p k s (kept o d s) (bool_opcode o) a
  Continues-bool o k a d s t vm at =
      subst (Answers m p (suc k) (kept o d s)) (sym (execute-bool o a vm)) (
        of_stack m p (suc k) s _ vm (λ u. jump_or_pop m.ops.make_bool (stops o) (pos a) u vm) at
          (jump_or_pop-Answers o (suc k) a d s vm t at))

  -- A result is pushed.
  pushed :
      (j : ℕ) (s : List Object) (vm : Vm) (r : Result Object)
      → At m p j s vm
      → Answers m p j (outcome_of r s) (push_result vm r)
  unfolding push_result
  pushed j s vm (ok x) at = (
    _,
    refl,
    record { lasti = at.lasti; stack = ap (◌∷◌ x) at.stack; extended = at.extended; why = at.why },
  )
  pushed j s vm (err e) at = (_, refl)

  pub Continues-load_const :
      (k i : ℕ) (s : List Object) (x : Object)
      → get_elem? m.frame.consts i ≡ some x
      → Continues m p k s (gives (x ∷ s)) Opcodes.load_const i
  unfolding execute do_load_const or_out_of_range push_result
  Continues-load_const k i s x e vm at = rw e (pushed (suc k) s vm (ok x) at)

  pub Continues-load_name :
      (k i : ℕ) (s : List Object) (id : String)
      → get_elem? m.frame.names i ≡ some id
      → Continues m p k s (outcome_of (found (lookup m.frame id)) s) Opcodes.load_name i
  unfolding execute do_load_name or_out_of_range
  Continues-load_name k i s id e vm at = rw e (pushed (suc k) s vm (found (lookup m.frame id)) at)

  pub Continues-load_global :
      (k i : ℕ) (s : List Object) (id : String)
      → get_elem? m.frame.names i ≡ some id
      → Continues m p k s (outcome_of (found (lookup_global m.frame id)) s) Opcodes.load_global i
  unfolding execute do_load_global or_out_of_range
  Continues-load_global k i s id e vm at =
      rw e (pushed (suc k) s vm (found (lookup_global m.frame id)) at)

  pub Continues-load_fast :
      (k i : ℕ) (s : List Object) (x : Option Object)
      → get_elem? m.frame.local_vars i ≡ some x
      → Continues m p k s (outcome_of (found x) s) Opcodes.load_fast i
  unfolding execute do_load_fast or_out_of_range
  Continues-load_fast k i s x e vm at = rw e (pushed (suc k) s vm (found x) at)

  attribute-Answers :
      (j : ℕ) (s : List Object) (vm : Vm) (id : String)
      → At m p j s vm
      → Answers m p j (one (λ a. m.ops.get_attr a id) s) (attribute_of m.frame m.ops id s vm)
  unfolding attribute_of
  attribute-Answers j [] vm id at = tt
  attribute-Answers j (a ∷ s) vm id at = set_top-Answers m p j s (a ∷ s) vm (m.ops.get_attr a id) at

  pub Continues-load_attr :
      (k i : ℕ) (s : List Object) (id : String)
      → get_elem? m.frame.names i ≡ some id
      → Continues m p k s (one (λ a. m.ops.get_attr a id) s) Opcodes.load_attr i
  unfolding execute do_load_attr or_out_of_range
  Continues-load_attr k i s id e vm at = rw e (
      of_stack m p (suc k) s _ vm (λ t. attribute_of m.frame m.ops id t vm) at
        (attribute-Answers (suc k) s vm id at))
