-- ===== src/Compile/Expressions/Whole.antt =====
-- compile/compile.go, compile/instructions.go and vm/eval.go together: an expression compiled,
-- assembled and run.
use mathlib.Core.Option
use taipan.Prelude.{
  ℕ, ◌<◌, ◌≤◌, ◌≡◌, refl, sym, ap, ◌∙◌, subst, true, false, Option, none, some, List, [], ◌∷◌,
  append-nil, length, Bytes, String,
}
use taipan.Prelude.Int.{pos}
use taipan.Exceptions.{Result, ok, err}
use taipan.Ast.{Expr}
use taipan.Opcodes.{byte, has_arg, return_value}
use taipan.Vm.State.{Object, Vm, Effect, done, error, why_not, why_return}
use taipan.Vm.Stack.{do_return_value}
use taipan.Vm.Dispatch.{Machine, call_opcode, execute}
use taipan.Compile.Instructions.{op, Labels, outputs, assemble}
use taipan.Compile.Instructions.Layout.{Moves, some_injective, none_ne}
use taipan.Compile.Instructions.Kept.{erase, nowhere, assemble-kept}
use taipan.Compile.Instructions.Decode.{fetch_extended}
use taipan.Compile.Emission.{Scoping, Compiler, ◌then◌, emit_instruction, emit_op}
use taipan.Compile.Expressions.{expr, compile_expression, add_return}
use taipan.Compile.Expressions.Meaning.{eval, variable}
use taipan.Compile.Expressions.Flow.{Program, Steps, At, Place, Reaches}
use taipan.Compile.Expressions.Emitted.{calls-op}
use taipan.Compile.Expressions.Operated.{outcome_of}
use taipan.Compile.Expressions.Tables.{Starts}
use taipan.Compile.Expressions.Pieces.{Fits, Done, here, emitted, after}
use taipan.Compile.Expressions.Named.{Linked, captured}
use taipan.Compile.Expressions.Correct.{expr_correct}
use taipan.Compile.Expressions.Last.{expr-EndsOpen, EndsOpen}

-- Rounds of the loop of `runFrame` on the code, and then the round that returns the value, or the one
-- that returns the error.
abbrev pub Returns : Machine → Bytes → Vm → Result Object → Type 0
Returns m code vm (ok x) =
    (vm₁ : Vm) × (vm₂ : Vm) × Steps m code vm (done vm₁)
    × (call_opcode m (fetch_extended code vm₁) ≡ done vm₂)
    × (vm₂.why ≡ why_return)
    × (vm₂.retval ≡ x)
Returns m code vm (err e) = (vm₁ : Vm) × Steps m code vm (error e vm₁)

Starts-itself : {A : Type 0} (xs : List A) → Starts xs xs
Starts-itself xs = ([], sym (append-nil xs))

-- The code of an expression and of its return.
compiled :
    (scoping : Scoping) (e : Expr) (c₀ : Compiler) (r : Option Compiler) {c : Compiler}
    → EndsOpen r
    → expr scoping e c₀ ≡ r
    → Option.bind r add_return ≡ some c
    → (c₁ : Compiler) × (expr scoping e c₀ ≡ some c₁)
      × (c ≡ after c₁ (op (record { n = 0; p = 0; lineno = c₁.lineno }) return_value))
unfolding Option.bind add_return emit_op has_arg byte emit_instruction
compiled scoping e c₀ none h f g = none_ne g
compiled scoping e c₀ (some c₁) h f g = (c₁, f, sym (some_injective (rw h at g)))

-- The machine's last round.
return_round :
    (m : Machine) (vm vm' : Vm) (s : List Object) (x : Object) {r : Effect}
    → r ≡ execute m return_value (pos 0) vm'
    → vm'.stack ≡ x ∷ s
    → (vm₂ : Vm) × (r ≡ done vm₂) × (vm₂.why ≡ why_return) × (vm₂.retval ≡ x)
unfolding execute do_return_value
return_round m vm vm' s x e h =
    let vm₂ : Vm = record vm' { stack = s; retval = x; yielded = false; why = why_return } in
    let f : execute m return_value (pos 0) vm' ≡ done vm₂ = rw h refl in (vm₂, e ∙ f, refl, refl)

module _ (m : Machine) (p : Program) where
  -- A value's code, with the return behind it.
  returns :
      (k : ℕ) (vm : Vm) (r : Result Object)
      → Reaches m p 0 [] (outcome_of r []) k
      → Place m p k (op nowhere return_value)
      → At m p 0 [] vm
      → Returns m (outputs p.stream) vm r
  unfolding has_arg byte
  returns k vm (ok x) h place at =
      let a = h vm at in
      let b = calls-op m p k (x ∷ []) return_value a.0 place refl a.2 in
      let c = return_round m a.0 b.0 [] x b.1 b.2.stack in (a.0, c.0, a.1, c.1, c.2, c.3)
  returns k vm (err e) h place at = h vm at

module _ (m : Machine) (scoping : Scoping)
    (distinct : (a b : Object) → scoping.same_type a b ≡ true → scoping.eq a b ≡ ok true → a ≡ b)
    (in_no_cell : (id : String) → captured (scoping.get_scope id) ≡ false) where
  -- The code of a finished compiler, in an assembled program.
  run_after :
      (p : Program) (e : Expr) (c₀ c₁ : Compiler) (vm : Vm)
      → Linked m p
      → c₀.op_codes ≡ []
      → expr scoping e c₀ ≡ some c₁
      → Fits m p (after c₁ (op (record { n = 0; p = 0; lineno = c₁.lineno }) return_value))
      → At m p 0 [] vm
      → Returns m (outputs p.stream) vm (eval m.ops (variable m.frame p.varnames scoping) e)
  unfolding erase
  run_after p e c₀ c₁ vm linked empty f fits at =
      let v = outcome_of (eval m.ops (variable m.frame p.varnames scoping) e) in
      let r = emitted m p c₁ _ fits in
      let d : Done m p c₀ (some c₁) v =
        subst (λ o. Done m p c₀ o v) f (expr_correct m p linked scoping distinct in_no_cell e c₀) in
      let from_start : here m p c₀ ≡ 0 = ap length empty in
      returns m p (here m p c₁) vm _
        (subst (λ k. Reaches m p k [] (v []) (here m p c₁)) from_start ((d r.0).1 [])) r.1 at

  -- An expression that is compiled, with its return, by a compiler that has emitted nothing yet, and
  -- assembled: the machine that starts at the first byte with an empty stack returns the expression's
  -- value, or the exception that evaluating it raises. The compilation did not panic, the first pass
  -- of the assembly moves something and the assembly succeeds with fewer than 2^31 - 16 bytes; the
  -- machine has the tables of the code, which are shorter than 2^31, and a slot for each local
  -- variable; no variable is in a cell, and constants of one type that are equal are one object.
  pub compile_expression-runs :
      (e : Expr) (c₀ c : Compiler) (ls : Labels) (out : Bytes) (vm : Vm)
      → c₀.op_codes ≡ []
      → compile_expression scoping e c₀ ≡ some c
      → Moves ls c.op_codes
      → assemble ls c.op_codes ≡ some out
      → length out < 0x7fff_fff0
      → m.frame.consts ≡ c.consts
      → m.frame.names ≡ c.names
      → length c.consts < 0x8000_0000
      → length c.names < 0x8000_0000
      → length c.varnames < 0x8000_0000
      → length c.varnames ≤ length m.frame.local_vars
      → vm.lasti ≡ pos 0
      → vm.stack ≡ []
      → vm.extended ≡ false
      → vm.why ≡ why_not
      → Returns m out vm (eval m.ops (variable m.frame c.varnames scoping) e)
  unfolding compile_expression ◌then◌ outputs
  compile_expression-runs e c₀ c ls out vm empty f moves g short consts names few_c few_n few_v
        slots l s x w =
      let a = assemble-kept ls c.op_codes moves g in
      let p : Program = record {
        labels = a.0;
        stream = a.1;
        varnames = c.varnames;
        placed = a.3;
        short = subst (λ b. length b < 0x7fff_fff0) a.2 short;
      } in
      let linked : Linked m p = record {
        few_consts = subst (λ t. length t < 0x8000_0000) (sym consts) few_c;
        few_names = subst (λ t. length t < 0x8000_0000) (sym names) few_n;
        few_varnames = few_v;
        slots = slots;
      } in
      let b = compiled scoping e c₀ _ (expr-EndsOpen scoping e c₀) refl f in
      let fits : Fits m p c = (
        ([], a.4 ∙ sym (append-nil _)),
        ([], consts ∙ sym (append-nil _)),
        ([], names ∙ sym (append-nil _)),
        Starts-itself c.varnames,
      ) in
      let start : At m p 0 [] vm = record { lasti = l; stack = s; extended = x; why = w } in
      subst (λ code. Returns m code vm (eval m.ops (variable m.frame c.varnames scoping) e))
        (sym a.2) (run_after p e c₀ b.0 vm linked empty b.1 (subst (Fits m p) b.2 fits) start)
