-- ===== src/Compile/Expressions/Jumping.antt =====
-- vm/eval.go: one round of the loop of `runFrame` at a jump of an assembled program.
use taipan.Prelude.{ℕ, suc, ◌+◌, ◌<◌, ◌≡◌, refl, sym, ap, ◌∙◌, List, ◌∷◌, ◌++◌, length, arith}
use taipan.Prelude.Int.{pos, wrap32, ◌+ℤ◌, wrap32_sum}
use taipan.Opcodes
use taipan.Opcodes.{OpCode, byte, has_arg}
use taipan.Vm.State.{Object}
use taipan.Vm.Dispatch.{Machine, execute}
use taipan.Vm.Jumps.{do_jump_forward}
use taipan.Compile.Instructions.{
  Instruction, label, jump_abs, jump_rel, Pos, output, outputs, size, arg_size,
}
use taipan.Compile.Instructions.Targets.{jump_targets, length-outputs_at}
use taipan.Compile.Instructions.Kept.{nowhere}
use taipan.Compile.Expressions.Flow.{
  Program, label_of_erase, jump_abs_of_erase, jump_rel_of_erase, Outcome, jumps, Place, Reaches,
  address, address-before, address-behind,
}
use taipan.Compile.Expressions.Emitted.{TakesArg, Continues, Reaches-arg}

module _ (m : Machine) (p : Program) where
  -- The label is in the stream.
  abbrev pub HasLabel : ℕ → Type 0
  HasLabel d = (i : ℕ) × Place m p i (label d)

  split_as :
      {k : ℕ} {x : Instruction} (place : Place m p k x) (y : Instruction)
      → place.it ≡ y
      → p.stream ≡ place.before ++ y ∷ place.after
  split_as place y e = place.split ∙ ap (λ x. place.before ++ x ∷ place.after) e

  address_fits : {k : ℕ} {x : Instruction} → Place m p k x → address m p k < 0x7fff_fff0
  address_fits place = omega (
    arith,
    p.short,
    address-before m p place,
    length-outputs_at place.before place.after place.it,
    ap (λ (xs : List Instruction). length (outputs xs)) place.split,
  )

  -- The argument of an absolute jump is the address of its label.
  abs_target :
      {k i d a : ℕ} {x : Instruction} {o : OpCode} {q : Pos} (place : Place m p k x)
      → place.it ≡ jump_abs q o a d
      → Place m p i (label d)
      → a ≡ address m p i
  abs_target place e there =
      let t =
        jump_targets p.labels p.stream there.before there.after _ (omega (arith, p.short)) p.placed
          (split_as there (label _) (label_of_erase there.it _ there.same)) in
      t.0 place.before place.after _ _ _ (split_as place _ e) ∙ sym (address-before m p there)

  -- The argument of a relative jump leads from its end to its label.
  rel_target :
      {k i d a : ℕ} {x : Instruction} {o : OpCode} {q : Pos} (place : Place m p k x)
      → place.it ≡ jump_rel q o a d
      → Place m p i (label d)
      → address m p (suc k) + a ≡ address m p i
  unfolding size
  rel_target {a = a} place e there =
      let t =
        jump_targets p.labels p.stream there.before there.after _ (omega (arith, p.short)) p.placed
          (split_as there (label _) (label_of_erase there.it _ there.same)) in
      let far = t.1 place.before place.after _ _ _ (split_as place _ e) in
      let sized : size place.it ≡ arg_size a = ap size e in
      omega (
        arith,
        far,
        sized,
        address-before m p place,
        address-before m p there,
        address-behind m p place,
      )

  -- The function of a jump's opcode, whose argument is the label's address.
  pub Reaches-jump_abs :
      (k : ℕ) (s : List Object) (out : Outcome) (o : OpCode) (d : ℕ)
      → Place m p k (jump_abs nowhere o 0 d)
      → TakesArg m p o
      → HasLabel d
      → ((a : ℕ)
          → ((i : ℕ) → Place m p i (label d) → a ≡ address m p i)
          → Continues m p k s out o a)
      → Reaches m p k s out (suc k)
  unfolding output size
  Reaches-jump_abs k s out o d place takes here h =
      let it = jump_abs_of_erase place.it o d place.same in
      let target : (i : ℕ) → Place m p i (label d) → it.1 ≡ address m p i =
        λ i there. abs_target place it.2 there in
      let small : it.1 < 0x8000_0000 = omega (arith, target here.0 here.1, address_fits here.1) in
      Reaches-arg m p k s out o it.1 place (ap output it.2) (ap size it.2) takes small
        (h it.1 target)

  takes_arg : TakesArg m p Opcodes.jump_forward
  unfolding has_arg byte
  takes_arg = (refl, refl)

  pub Reaches-jump_forward :
      (k : ℕ) (s : List Object) (d : ℕ)
      → Place m p k (jump_rel nowhere Opcodes.jump_forward 0 d)
      → HasLabel d
      → Reaches m p k s (jumps d s) (suc k)
  unfolding output size execute do_jump_forward
  Reaches-jump_forward k s d place here =
      let it = jump_rel_of_erase place.it Opcodes.jump_forward d place.same in
      let target : (i : ℕ) → Place m p i (label d) → address m p (suc k) + it.1 ≡ address m p i =
        λ i there. rel_target place it.2 there in
      let small : it.1 < 0x8000_0000 = omega (arith, target here.0 here.1, address_fits here.1) in
      let lands : Continues m p k s (jumps d s) Opcodes.jump_forward it.1 = λ vm at i there. (
        _,
        refl,
        record {
          lasti =
              ap (λ z. wrap32 (z +ℤ pos it.1)) at.lasti
              ∙ wrap32_sum (address m p (suc k)) it.1
                  (omega (arith, target i there, address_fits there))
              ∙ ap pos (target i there);
          stack = at.stack;
          extended = at.extended;
          why = at.why;
        },
      ) in
      Reaches-arg m p k s (jumps d s) Opcodes.jump_forward it.1 place (ap output it.2)
        (ap size it.2) takes_arg small lands
