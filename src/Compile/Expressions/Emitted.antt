-- ===== src/Compile/Expressions/Emitted.antt =====
-- vm/eval.go: one round of the loop of `runFrame` at an emitted instruction of an assembled program.
use taipan.Prelude.{
  ℕ, suc, ◌+◌, ◌<◌, ◌≡◌, refl, sym, ap, ◌∙◌, true, false, some, List, ◌∷◌, ◌++◌, ◌==◌, length,
  arith, subst,
}
use taipan.Prelude.Int.{pos}
use taipan.Opcodes.{OpCode, byte, has_arg, extended_arg}
use taipan.Vm.State.{Object, Vm, Effect, done, error}
use taipan.Vm.Dispatch.{Machine, call_opcode, execute}
use taipan.Compile.Instructions.{
  Instruction, op, op_arg, label, output, outputs, size, arg_size, arg_output,
}
use taipan.Compile.Instructions.Decode.{fetch_extended}
use taipan.Compile.Instructions.Targets.{
  fetch_extended-outputs, fetch_extended-outputs_op, step_byte,
}
use taipan.Compile.Instructions.Kept.{nowhere}
use taipan.Compile.Expressions.Flow.{
  Program, op_of_erase, op_arg_of_erase, Outcome, gives, raises, jumps, unknown, At, next, fails,
  stop, Place, Reaches, address, address-before, address-behind,
}

module _ (m : Machine) (p : Program) where
  -- What an opcode's function returns, for an instruction in front of instruction `j`.
  abbrev pub Answers : ℕ → Outcome → Effect → Type 0
  Answers j (gives s) r = (vm : Vm) × (r ≡ done vm) × At m p j s vm
  Answers j (raises e) r = (vm : Vm) × (r ≡ error e vm)
  Answers j (jumps d s) r =
      (i : ℕ) → Place m p i (label d) → (vm : Vm) × (r ≡ done vm) × At m p i s vm
  Answers j unknown r = Unit

  round :
      (k j : ℕ) (s : List Object) (o : Outcome)
      → ((vm : Vm)
          → At m p k s vm
          → Answers j o (call_opcode m (fetch_extended (outputs p.stream) vm)))
      → Reaches m p k s o j
  round k j s (gives t) h = λ vm at. let a = h vm at in (a.0, next a.1 a.2.why stop, a.2)
  round k j s (raises e) h = λ vm at. let a = h vm at in (a.0, fails a.1)
  round k j s (jumps d t) h =
      λ i place vm at. let a = h vm at i place in (a.0, next a.1 a.2.why stop, a.2)
  round k j s unknown h = tt

  -- The machine's function for the opcode, with the machine behind the instruction.
  abbrev pub Continues : ℕ → List Object → Outcome → OpCode → ℕ → Type 0
  Continues k s out o a =
      (vm : Vm) → At m p (suc k) s vm → Answers (suc k) out (execute m o (pos a) vm)

  plain_op : (b : ℕ) → has_arg b ≡ false → (b == byte extended_arg) ≡ false
  unfolding has_arg byte
  plain_op b h = ground arith

  -- Behind the instruction at place `k`.
  behind-Place :
      {k : ℕ} {x : Instruction} (place : Place m p k x) (y : Instruction)
      → place.it ≡ y
      → pos (length (outputs place.before) + size y) ≡ pos (address m p (suc k))
  behind-Place place y e =
      let sized : size place.it ≡ size y = ap size e in
      ap pos (omega (arith, address-before m p place, address-behind m p place, sized))

  -- The answer of a round is that of the function of the opcode it has fetched.
  answer :
      (j : ℕ) (out : Outcome) (o : OpCode) (a : ℕ) (vm vm' : Vm)
      → fetch_extended (outputs p.stream) vm ≡ some (byte o, pos a, vm')
      → Answers j out (execute m o (pos a) vm')
      → Answers j out (call_opcode m (fetch_extended (outputs p.stream) vm))
  answer j out o a vm vm' e h =
      subst (Answers j out) (sym (ap (call_opcode m) e ∙ step_byte m o a vm')) h

  -- The machine calls the opcode's function behind the instruction.
  pub calls-op :
      (k : ℕ) (s : List Object) (o : OpCode) (vm : Vm)
      → Place m p k (op nowhere o)
      → has_arg (byte o) ≡ false
      → At m p k s vm
      → (vm' : Vm) × (call_opcode m (fetch_extended (outputs p.stream) vm)
          ≡ execute m o (pos 0) vm')
        × At m p (suc k) s vm'
  unfolding size
  calls-op k s o vm place no_arg at =
      let it = op_of_erase place.it o place.same in
      let split = place.split ∙ ap (λ x. place.before ++ x ∷ place.after) it.1 in
      let fetched =
        fetch_extended-outputs_op p.stream place.before place.after it.0 o vm p.short no_arg
          (plain_op (byte o) no_arg) (at.lasti ∙ ap pos (address-before m p place)) at.extended
          split in
      (
        _,
        ap (call_opcode m) fetched ∙ step_byte m o 0 _,
        record {
          lasti = behind-Place place (op it.0 o) it.1;
          stack = at.stack;
          extended = refl;
          why = at.why;
        },
      )

  pub Reaches-op :
      (k : ℕ) (s : List Object) (out : Outcome) (o : OpCode)
      → Place m p k (op nowhere o)
      → has_arg (byte o) ≡ false
      → Continues k s out o 0
      → Reaches m p k s out (suc k)
  Reaches-op k s out o place no_arg h = round k (suc k) s out λ vm at.
      let r = calls-op k s o vm place no_arg at in subst (Answers (suc k) out) (sym r.1) (h r.0 r.2)

  -- An opcode that takes an argument, and is not EXTENDED_ARG.
  abbrev pub TakesArg : OpCode → Type 0
  TakesArg o = (has_arg (byte o) ≡ true) × ((byte o == byte extended_arg) ≡ false)

  -- An instruction whose bytes are those of an opcode and an argument.
  pub Reaches-arg :
      (k : ℕ) (s : List Object) (out : Outcome) (o : OpCode) (a : ℕ) {x : Instruction}
      (place : Place m p k x)
      → output place.it ≡ arg_output o a
      → size place.it ≡ arg_size a
      → TakesArg o
      → a < 0x8000_0000
      → Continues k s out o a
      → Reaches m p k s out (suc k)
  Reaches-arg k s out o a place bytes sized takes small h = round k (suc k) s out λ vm at.
      let fetched =
        fetch_extended-outputs p.stream place.before place.after place.it o a vm p.short takes.0
          takes.1 (at.lasti ∙ ap pos (address-before m p place)) at.extended bytes place.split
          small in
      answer (suc k) out o a vm _ fetched (
        h _ record {
          lasti =
              ap (λ n. pos (length (outputs place.before) + n)) (sym sized)
              ∙ behind-Place place place.it refl;
          stack = at.stack;
          extended = refl;
          why = at.why;
        })

  pub Reaches-op_arg :
      (k : ℕ) (s : List Object) (out : Outcome) (o : OpCode) (a : ℕ)
      → Place m p k (op_arg nowhere o a)
      → TakesArg o
      → a < 0x8000_0000
      → Continues k s out o a
      → Reaches m p k s out (suc k)
  unfolding output size
  Reaches-op_arg k s out o a place takes small h =
      let it = op_arg_of_erase place.it o a place.same in
      Reaches-arg k s out o a place (ap output it.1) (ap size it.1) takes small h
