-- ===== src/Compile/Instructions/Targets.antt =====
-- compile/instructions.go and vm/eval.go: where the jumps of a placed stream lead.
use taipan.Prelude.{
  ℕ, ◌+◌, ◌<◌, ◌≤◌, ◌≡◌, refl, sym, ap, ◌∙◌, true, false, some, List, [], ◌∷◌, ◌++◌, ◌==◌, Bytes,
  length, length-append, append_assoc, arith,
}
use taipan.Prelude.Int.{pos, wrap32_pos, ◌+ℤ◌}
use taipan.Opcodes.{OpCode, byte, has_arg, extended_arg, of_byte-byte, jump_absolute, jump_forward}
use taipan.Vm.Dispatch.{Machine, call_opcode, execute}
use taipan.Vm.State.{Vm, done}
use taipan.Vm.Jumps.{do_jump_absolute, do_jump_forward}
use taipan.Compile.Instructions.{
  Instruction, op, op_arg, label, jump_abs, jump_rel, Labels, Pos, pos_of, u32, output, outputs,
  size, arg_output, arg_size,
}
use taipan.Compile.Instructions.Layout.{Placed, Resolved}
use taipan.Compile.Instructions.Decode.{
  fetch_extended, fetch_extended-arg_output, fetch_extended-op, behind,
}

length-arg_output : (o : OpCode) (a : ℕ) → length (arg_output o a) ≡ arg_size a
unfolding arg_output
length-arg_output o a = ground arith

-- `Size` is the length of `Output`.
length-output : (x : Instruction) → length (output x) ≡ size x
unfolding output size
length-output (op q o) = refl
length-output (op_arg q o a) = length-arg_output o a
length-output (label d) = refl
length-output (jump_abs q o a d) = length-arg_output o a
length-output (jump_rel q o a d) = length-arg_output o a

pub length-outputs_cons :
    (x : Instruction) (xs : List Instruction)
    → length (outputs (x ∷ xs)) ≡ size x + length (outputs xs)
unfolding outputs
length-outputs_cons x xs = omega (arith, length-append (output x) (outputs xs), length-output x)

pub length-outputs_at :
    (pre post : List Instruction) (x : Instruction)
    → length (outputs pre) + size x ≤ length (outputs (pre ++ x ∷ post))
length-outputs_at [] post x = unfold outputs in omega (arith, length-outputs_cons x post)
length-outputs_at (y ∷ pre) post x = omega (
  arith,
  length-outputs_at pre post x,
  length-outputs_cons y pre,
  length-outputs_cons y (pre ++ x ∷ post),
)

length-jump_rel : (q : Pos) (o : OpCode) (a d : ℕ) → size (jump_rel q o a d) ≡ arg_size a
unfolding size
length-jump_rel q o a d = refl

-- A stream's bytes end below 2^32 from `addr` on.
abbrev pub Ends : ℕ → List Instruction → Type 0
Ends addr xs = addr + length (outputs xs) < 0x1_0000_0000

-- The instruction behind `pre` stands at the length of `pre`'s bytes, and is resolved.
pub Placed-at :
    (ls : Labels) (addr : ℕ) (pre post : List Instruction) (x : Instruction)
    → Ends addr (pre ++ x ∷ post)
    → Placed ls addr (pre ++ x ∷ post)
    → ((pos_of ls x).p ≡ addr + length (outputs pre)) × Resolved ls x
Placed-at ls addr [] post x h p = (unfold outputs in omega (arith, p.0), p.1)
Placed-at ls addr (y ∷ pre) post x h p =
    let n = length-outputs_cons y (pre ++ x ∷ post) in
    let e : u32 (addr + size y) ≡ addr + size y = omega arith in
    let rest = rw e at p.2 in
    let r = Placed-at ls (addr + size y) pre post x (omega arith) rest in
    (omega (arith, r.0, length-outputs_cons y pre), r.1)

-- In a stream that is placed from 0 on and shorter than 2^32 bytes, with a label: the argument of
-- each absolute jump to it is the number of bytes in front of the label, and the argument of each
-- relative jump to it is the number of bytes between the end of the jump and the label.
pub jump_targets :
    (ls : Labels) (xs pre post : List Instruction) (d : ℕ)
    → length (outputs xs) < 0x1_0000_0000
    → Placed ls 0 xs
    → xs ≡ pre ++ label d ∷ post
    → ((before after : List Instruction) (q : Pos) (o : OpCode) (a : ℕ)
        → xs ≡ before ++ jump_abs q o a d ∷ after
        → a ≡ length (outputs pre))
      × ((before after : List Instruction) (q : Pos) (o : OpCode) (a : ℕ)
          → xs ≡ before ++ jump_rel q o a d ∷ after
          → length (outputs before) + arg_size a + a ≡ length (outputs pre))
jump_targets ls xs pre post d h p e =
    let ends : Ends 0 xs = omega arith in
    let here = λ (before after : List Instruction) (x : Instruction) (f : xs ≡ before ++ x ∷ after).
      Placed-at ls 0 before after x (rw f at ends) (rw f at p) in
    let target = here pre post (label d) e in
    (
      λ before after q o a f.
          let at_jump = here before after (jump_abs q o a d) f in
          omega (arith, target.0, at_jump.1),
      λ before after q o a f.
          let at_jump = here before after (jump_rel q o a d) f in
          let long = length-outputs_at before after (jump_rel q o a d) in
          omega (arith, target.0, at_jump.0, at_jump.1, rw f at h, long, length-jump_rel q o a d),
    )

outputs-append : (xs ys : List Instruction) → outputs (xs ++ ys) ≡ outputs xs ++ outputs ys
unfolding outputs
outputs-append [] ys = refl
outputs-append (x ∷ xs) ys =
    ap (◌++◌ (output x)) (outputs-append xs ys)
    ∙ sym (append_assoc (output x) (outputs xs) (outputs ys))

pub length-outputs_snoc :
    (xs : List Instruction) (x : Instruction)
    → length (outputs (xs ++ x ∷ [])) ≡ length (outputs xs) + size x
length-outputs_snoc [] x = unfold outputs in omega (arith, length-outputs_cons x [])
length-outputs_snoc (y ∷ xs) x = omega (
  arith,
  length-outputs_snoc xs x,
  length-outputs_cons y xs,
  length-outputs_cons y (xs ++ x ∷ []),
)

-- The machine at an instruction with the argument `a`.
pub fetch_extended-outputs :
    (xs before after : List Instruction) (x : Instruction) (o : OpCode) (a : ℕ) (vm : Vm)
    → length (outputs xs) < 0x7fff_fff0
    → has_arg (byte o) ≡ true
    → (byte o == byte extended_arg) ≡ false
    → vm.lasti ≡ pos (length (outputs before))
    → vm.extended ≡ false
    → output x ≡ arg_output o a
    → xs ≡ before ++ x ∷ after
    → a < 0x8000_0000
    → fetch_extended (outputs xs) vm ≡ some (byte o, pos a, behind (length (outputs before)) a vm)
fetch_extended-outputs xs before after x o a vm short arg plain here fresh out f fits =
    let code : outputs xs ≡ outputs before ++ (arg_output o a ++ outputs after) =
      ap outputs f
      ∙ outputs-append before (x ∷ after)
      ∙ unfold outputs in (ap (λ (b : Bytes). outputs before ++ (b ++ outputs after)) out) in
    let long : length (outputs before) ≤ length (outputs xs) = omega (
      arith,
      length-outputs_at before after x,
      ap (λ (ys : List Instruction). length (outputs ys)) f,
    ) in
    rw code (
      fetch_extended-arg_output o a (outputs before) (outputs after) vm arg plain fits (omega arith)
        here fresh)

-- The machine at an instruction without an argument.
pub fetch_extended-outputs_op :
    (xs before after : List Instruction) (q : Pos) (o : OpCode) (vm : Vm)
    → length (outputs xs) < 0x7fff_fff0
    → has_arg (byte o) ≡ false
    → (byte o == byte extended_arg) ≡ false
    → vm.lasti ≡ pos (length (outputs before))
    → vm.extended ≡ false
    → xs ≡ before ++ op q o ∷ after
    → fetch_extended (outputs xs) vm
      ≡ some
          (byte o, pos 0, record vm { lasti = pos (length (outputs before) + 1); extended = false })
fetch_extended-outputs_op xs before after q o vm short arg plain here fresh f =
    let code : outputs xs ≡ outputs before ++ (byte o ∷ outputs after) =
      ap outputs f ∙ outputs-append before (op q o ∷ after) ∙ unfold outputs output in refl in
    let long : length (outputs before) ≤ length (outputs xs) = omega (
      arith,
      length-outputs_at before after (op q o),
      ap (λ (ys : List Instruction). length (outputs ys)) f,
    ) in
    rw code
      (fetch_extended-op o (outputs before) (outputs after) vm arg plain (omega arith) here fresh)

-- The machine calls the function of the opcode that it has read.
pub step_byte :
    (m : Machine) (o : OpCode) (a : ℕ) (vm : Vm)
    → call_opcode m (some (byte o, pos a, vm)) ≡ execute m o (pos a) vm
unfolding call_opcode
step_byte m o a vm = rw (of_byte-byte o) refl

jump_absolute_takes :
    (has_arg (byte jump_absolute) ≡ true) × ((byte jump_absolute == byte extended_arg) ≡ false)
unfolding has_arg byte
jump_absolute_takes = (refl, refl)

jump_forward_takes :
    (has_arg (byte jump_forward) ≡ true) × ((byte jump_forward == byte extended_arg) ≡ false)
unfolding has_arg byte
jump_forward_takes = (refl, refl)

module _ (m : Machine) (ls : Labels) (xs pre post before after : List Instruction) (d : ℕ) (q : Pos)
    (a : ℕ) (vm : Vm) (short : length (outputs xs) < 0x7fff_fff0) (placed : Placed ls 0 xs)
    (at_label : xs ≡ pre ++ label d ∷ post) (here : vm.lasti ≡ pos (length (outputs before)))
    (fresh : vm.extended ≡ false) where
  abbrev at_target : Vm
  at_target = record (behind (length (outputs before)) a vm) { lasti = pos (length (outputs pre)) }

  target_within : length (outputs pre) ≤ length (outputs xs)
  target_within = omega (
    arith,
    length-outputs_at pre post (label d),
    ap (λ (ys : List Instruction). length (outputs ys)) at_label,
  )

  -- One round of the machine at a JUMP_ABSOLUTE of a placed stream, from reading the opcode and its
  -- argument to the call of the function that the jump table has for it, goes to the first byte
  -- behind the jump's label, with the same stack and blocks. The stream's bytes are fewer than
  -- 2^31 - 16, and the machine stands at the jump with no argument half read.
  pub jump_abs_lands :
      xs ≡ before ++ jump_abs q jump_absolute a d ∷ after
      → call_opcode m (fetch_extended (outputs xs) vm) ≡ done at_target
  unfolding do_jump_absolute execute
  jump_abs_lands f =
      let (arg, plain) = jump_absolute_takes in
      let e =
        (jump_targets ls xs pre post d (omega arith) placed at_label).0 before after q _ a f in
      ap (call_opcode m) (
        fetch_extended-outputs xs before after (jump_abs q jump_absolute a d) jump_absolute a vm
          short arg plain here fresh (unfold output in refl) f (omega (arith, e, target_within)))
      ∙ step_byte m jump_absolute a _
      ∙ ground (arith, e)

  -- One round of the machine at a JUMP_FORWARD of a placed stream, from reading the opcode and its
  -- argument to the call of the function that the jump table has for it, goes to the first byte
  -- behind the jump's label, with the same stack and blocks. The stream's bytes are fewer than
  -- 2^31 - 16, and the machine stands at the jump with no argument half read.
  pub jump_rel_lands :
      xs ≡ before ++ jump_rel q jump_forward a d ∷ after
      → call_opcode m (fetch_extended (outputs xs) vm) ≡ done at_target
  unfolding do_jump_forward execute ◌+ℤ◌
  jump_rel_lands f =
      let (arg, plain) = jump_forward_takes in
      let e =
        (jump_targets ls xs pre post d (omega arith) placed at_label).1 before after q _ a f in
      ap (call_opcode m) (
        fetch_extended-outputs xs before after (jump_rel q jump_forward a d) jump_forward a vm short
          arg plain here fresh (unfold output in refl) f (omega (arith, e, target_within)))
      ∙ step_byte m jump_forward a _
      ∙ ground (arith, e, target_within, wrap32_pos (length (outputs pre)))
