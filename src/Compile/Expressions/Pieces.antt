-- ===== src/Compile/Expressions/Pieces.antt =====
-- compile/compile.go and vm/eval.go: what the machine does with a piece of code that the compiler
-- has emitted, put together from what it does with its parts.
use mathlib.Core.Option
use taipan.Prelude.{
  ℕ, suc, ◌+◌, ◌<◌, ◌≡◌, refl, sym, ap, subst, false, Option, none, some, List, [], ◌∷◌, ◌++◌, map,
  length, length-append, ◌==◌, arith, Bool-cases, inl, inr, ◌⊎◌,
}
use taipan.Opcodes
use taipan.Opcodes.{OpCode, byte, has_arg, extended_arg}
use taipan.Vm.State.{Object}
use taipan.Vm.Dispatch.{Machine}
use taipan.Compile.Instructions.{Instruction, op, op_arg, label, jump_abs, jump_rel, Pos}
use taipan.Compile.Emission.{
  Compiler, Code, ◌then◌, emit_instruction, emit_op, emit_op_arg, emit_label, jump, absolute,
  jump_kind, emit_jump, with_labels,
}
use taipan.Compile.Expressions.{set_lineno}
use taipan.Compile.Instructions.Kept.{nowhere, erase}
use taipan.Compile.Expressions.Flow.{
  Program, Outcome, jumps, unknown, ◌and_then◌, catches, Place, Reaches, Reaches-then,
  Reaches-label,
}
use taipan.Compile.Expressions.Emitted.{TakesArg, Continues, Reaches-op, Reaches-op_arg}
use taipan.Compile.Expressions.Jumping.{HasLabel, Reaches-jump_abs, Reaches-jump_forward}
use taipan.Compile.Expressions.Branched.{Targets}
use taipan.Compile.Expressions.Tables.{Starts}

-- The stream starts with these instructions, and goes on with one more.
record Snoc (xs ys : List Instruction) (x : Instruction) : Type 0 where
  before : List Instruction
  after : List Instruction
  it : Instruction
  split : ys ≡ before ++ it ∷ after
  number : length before ≡ length xs
  same : erase it ≡ erase x
  starts : Starts (map erase xs) (map erase ys)

Snoc-of :
    (xs ys : List Instruction) (x : Instruction)
    → Starts (map erase (xs ++ x ∷ [])) (map erase ys)
    → Snoc xs ys x
Snoc-of [] [] x (rest, e) = cc
Snoc-of [] (y ∷ ys) x (rest, e) = record {
  before = [];
  after = ys;
  it = y;
  split = refl;
  number = refl;
  same = cc;
  starts = (map erase (y ∷ ys), refl);
}
Snoc-of (x' ∷ xs) [] x (rest, e) = cc
Snoc-of (x' ∷ xs) (y ∷ ys) x (rest, e) =
    let r = Snoc-of xs ys x (rest, cc) in
    record {
      before = y ∷ r.before;
      after = r.after;
      it = r.it;
      split = ap (◌∷◌ y) r.split;
      number = ap suc r.number;
      same = r.same;
      starts = (r.starts.0, cc);
    }

-- The compiler behind one more instruction.
abbrev pub after : Compiler → Instruction → Compiler
after c x = record c { op_codes = c.op_codes ++ x ∷ [] }

module _ (m : Machine) (p : Program) where
  -- What is compiled so far is the start of the program.
  abbrev pub Fits : Compiler → Type 0
  Fits c =
      Starts (map erase c.op_codes) (map erase p.stream)
      × Starts c.consts m.frame.consts
      × Starts c.names m.frame.names
      × Starts c.varnames p.varnames

  abbrev pub here : Compiler → ℕ
  here c = length c.op_codes

  -- Compiled code that is part of the program does this with the stack.
  abbrev pub Done : Compiler → Option Compiler → (List Object → Outcome) → Type 0
  Done c none f = Unit
  Done c (some c') f =
      Fits c' → Fits c × ((s : List Object) → Reaches m p (here c) s (f s) (here c'))

  abbrev pub Does : Code → (List Object → Outcome) → Type 0
  Does code f = (c : Compiler) → Done c (code c) f

  pub Done-ext :
      (c : Compiler) (r : Option Compiler) (f g : List Object → Outcome)
      → ((s : List Object) → f s ≡ g s)
      → Done c r f
      → Done c r g
  Done-ext c none f g e h = tt
  Done-ext c (some c') f g e h = λ fits.
      ((h fits).0, λ s. subst (λ o. Reaches m p (here c) s o (here c')) (e s) ((h fits).1 s))

  -- Less is said of some stacks.
  pub Done-known :
      (c : Compiler) (r : Option Compiler) (f g : List Object → Outcome)
      → ((s : List Object) → (f s ≡ g s) ⊎ (g s ≡ unknown))
      → Done c r f
      → Done c r g
  Done-known c none f g e h = tt
  Done-known c (some c') f g e h = λ fits. (
    (h fits).0,
    λ s. elim (e s) [
      | inl same ↦ subst (λ o. Reaches m p (here c) s o (here c')) same ((h fits).1 s)
      | inr out ↦ subst (λ o. Reaches m p (here c) s o (here c')) (sym out) tt
    ],
  )

  join :
      (c c₁ : Compiler) (r : Option Compiler) (f g : List Object → Outcome)
      → Done c (some c₁) f
      → Done c₁ r g
      → Done c r (λ s. f s and_then g)
  join c c₁ none f g h k = tt
  join c c₁ (some c₂) f g h k = λ fits.
      let b = k fits in
      let a = h b.0 in
      (a.0, λ s. Reaches-then m p (here c) (here c₁) (here c₂) s (f s) g (a.1 s) b.1)

  pub Done-then :
      (c : Compiler) (r : Option Compiler) (n : Code) (f g : List Object → Outcome)
      → Done c r f
      → Does n g
      → Done c (Option.bind r n) (λ s. f s and_then g)
  unfolding Option.bind
  Done-then c none n f g h k = tt
  Done-then c (some c₁) n f g h k = join c c₁ (n c₁) f g h (k c₁)

  pub Does-then :
      (a b : Code) (f g : List Object → Outcome)
      → Does a f
      → Does b g
      → Does (a then b) (λ s. f s and_then g)
  unfolding ◌then◌
  Does-then a b f g h k c = Done-then c (a c) b f g (h c) k

  pub emitted :
      (c : Compiler) (x : Instruction) → Fits (after c x) → Fits c × Place m p (here c) (erase x)
  emitted c x fits =
      let r = Snoc-of c.op_codes p.stream x fits.0 in
      (
        (r.starts, fits.1, fits.2, fits.3),
        record {
          before = r.before;
          after = r.after;
          it = r.it;
          split = r.split;
          number = r.number;
          same = r.same;
        },
      )

  pub here-after : (c : Compiler) (x : Instruction) → suc (here c) ≡ here (after c x)
  here-after c x = omega (arith, length-append c.op_codes (x ∷ []))

  -- One emitted instruction.
  pub Does-emit_instruction :
      (x : Pos → Instruction) (y : Instruction) (f : List Object → Outcome)
      → ((q : Pos) → erase (x q) ≡ y)
      → ((k : ℕ) (s : List Object) → Place m p k y → Reaches m p k s (f s) (suc k))
      → Does (emit_instruction x) f
  unfolding emit_instruction
  Does-emit_instruction x y f e h c = λ fits.
      let r = emitted c _ fits in
      let place = subst (Place m p (here c)) (e _) r.1 in
      (r.0, λ s. subst (Reaches m p (here c) s (f s)) (here-after c _) (h (here c) s place))

  pub Does-op :
      (o : OpCode) (f : List Object → Outcome)
      → ((k : ℕ) (s : List Object) → Continues m p k s (f s) o 0)
      → Does (emit_op o) f
  unfolding emit_op erase
  Does-op o f h c = elim (Bool-cases (has_arg (byte o))) [
    | inl arg ↦ rw arg tt
    | inr no_arg ↦ rw no_arg (
        Does-emit_instruction (λ q. op q o) (op nowhere o) f (λ q. refl)
          (λ k s place. Reaches-op m p k s (f s) o place no_arg (h k s)) c)
  ]

  pub Does-op_arg :
      (o : OpCode) (a : ℕ) (f : List Object → Outcome)
      → TakesArg m p o
      → a < 0x8000_0000
      → ((k : ℕ) (s : List Object) → Continues m p k s (f s) o a)
      → Does (emit_op_arg o a) f
  unfolding emit_op_arg erase
  Does-op_arg o a f takes small h c = rw takes.0 (
      Does-emit_instruction (λ q. op_arg q o a) (op_arg nowhere o a) f (λ q. refl)
        (λ k s place. Reaches-op_arg m p k s (f s) o a place takes small (h k s)) c)

  pub Does-jump_abs :
      (o : OpCode) (d : ℕ) (f : List Object → Outcome)
      → jump_kind o ≡ absolute
      → TakesArg m p o
      → HasLabel m p d
      → ((k a : ℕ) (s : List Object) → Targets m p a d → Continues m p k s (f s) o a)
      → Does (jump o d) f
  unfolding jump emit_jump erase
  Does-jump_abs o d f kind takes there h = rw kind (
      Does-emit_instruction (λ q. jump_abs q o 0 d) (jump_abs nowhere o 0 d) f (λ q. refl)
        (λ k s place. Reaches-jump_abs m p k s (f s) o d place takes there (λ a t. h k a s t)))

  pub Does-jump_forward :
      (d : ℕ) → HasLabel m p d → Does (jump Opcodes.jump_forward d) (λ s. jumps d s)
  unfolding jump emit_jump jump_kind erase
  Does-jump_forward d there =
      Does-emit_instruction (λ q. jump_rel q Opcodes.jump_forward 0 d)
        (jump_rel nowhere Opcodes.jump_forward 0 d) (λ s. jumps d s) (λ q. refl)
        (λ k s place. Reaches-jump_forward m p k s d place there)

  Done-label :
      (c : Compiler) (r : Option Compiler) (d : ℕ) (f : List Object → Outcome)
      → (HasLabel m p d → Done c r f)
      → Done c (Option.bind r (emit_label d)) (λ s. catches m p d (f s))
  unfolding Option.bind emit_label emit_instruction erase
  Done-label c none d f h = tt
  Done-label c (some c₁) d f h = λ fits.
      let r = emitted c₁ (label d) fits in
      let a = h (here c₁, r.1) r.0 in
      (
        a.0,
        λ s.
            subst (Reaches m p (here c) s (catches m p d (f s))) (here-after c₁ (label d))
              (Reaches-label m p (here c) (here c₁) d s (f s) r.1 (a.1 s)),
      )

  -- A piece of code that jumps to the label behind it.
  pub Does-label :
      (a : Code) (d : ℕ) (f : List Object → Outcome)
      → (HasLabel m p d → Does a f)
      → Does (a then emit_label d) (λ s. catches m p d (f s))
  unfolding ◌then◌
  Does-label a d f h c = Done-label c (a c) d f (λ there. h there c)

  -- The line number and the labels in use do not matter to the program.
  renamed :
      (c : Compiler) (n d : ℕ) (r : Option Compiler) (f : List Object → Outcome)
      → Done (record c { lineno = n; labels = d }) r f
      → Done c r f
  renamed c n d none f h = tt
  renamed c n d (some c') f h = h

  pub Does-set_lineno :
      (n : ℕ) (a : Code) (f : List Object → Outcome) → Does a f → Does (set_lineno n then a) f
  unfolding ◌then◌ set_lineno Option.bind
  Does-set_lineno n a f h c = renamed c n c.labels (a _) f (h (record c { lineno = n }))

  pub Does-with_labels :
      (a : ℕ → ℕ → Code) (f : List Object → Outcome)
      → ((d e : ℕ) → (d == e) ≡ false → (e == d) ≡ false → Does (a d e) f)
      → Does (with_labels a) f
  unfolding with_labels
  Does-with_labels a f h c =
      renamed c c.lineno (c.labels + 2) (a c.labels (c.labels + 1) _) f (
        h c.labels (c.labels + 1) (ground arith) (ground arith)
          (record c { labels = c.labels + 2 }))
