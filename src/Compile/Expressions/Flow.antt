-- ===== src/Compile/Expressions/Flow.antt =====
-- compile/compile.go and vm/eval.go: an assembled program, the places of its instructions, and the
-- runs of the machine between them.
use taipan.Prelude.{
  ℕ, suc, ◌+◌, ◌<◌, ◌≡◌, refl, sym, ap, ◌∙◌, Bool, true, false, List, [], ◌∷◌, ◌++◌, String, Bytes,
  length, take, ◌==◌, arith, subst,
}
use taipan.Prelude.Int.{pos}
use taipan.Exceptions.{Exception, Result, ok, err}
use taipan.Opcodes.{OpCode}
use taipan.Vm.State.{Object, Vm, Effect, done, error, why_not}
use taipan.Vm.Dispatch.{Machine, call_opcode}
use taipan.Compile.Instructions.{
  Instruction, op, op_arg, label, jump_abs, jump_rel, Labels, Pos, outputs, size,
}
use taipan.Compile.Instructions.Targets.{length-outputs_snoc}
use taipan.Compile.Instructions.Layout.{Placed}
use taipan.Compile.Instructions.Kept.{nowhere, erase}
use taipan.Compile.Instructions.Decode.{fetch_extended}

-- A placed stream whose bytes are the code, and the code's table of local names.
pub record Program : Type 0 where
  pub labels : Labels
  pub stream : List Instruction
  pub varnames : List String
  pub placed : Placed labels 0 stream
  pub short : length (outputs stream) < 0x7fff_fff0

pub label_of_erase : (y : Instruction) (d : ℕ) → erase y ≡ label d → y ≡ label d
unfolding erase
label_of_erase (op q o) d h = cc
label_of_erase (op_arg q o a) d h = cc
label_of_erase (label e) d h = h
label_of_erase (jump_abs q o a e) d h = cc
label_of_erase (jump_rel q o a e) d h = cc

pub op_of_erase : (y : Instruction) (o : OpCode) → erase y ≡ op nowhere o → (q : Pos) × (y ≡ op q o)
unfolding erase
op_of_erase (op q o') o h = (q, cc)
op_of_erase (op_arg q o' a) o h = cc
op_of_erase (label e) o h = cc
op_of_erase (jump_abs q o' a e) o h = cc
op_of_erase (jump_rel q o' a e) o h = cc

pub op_arg_of_erase :
    (y : Instruction) (o : OpCode) (a : ℕ)
    → erase y ≡ op_arg nowhere o a
    → (q : Pos) × (y ≡ op_arg q o a)
unfolding erase
op_arg_of_erase (op q o') o a h = cc
op_arg_of_erase (op_arg q o' a') o a h = (q, cc)
op_arg_of_erase (label e) o a h = cc
op_arg_of_erase (jump_abs q o' a' e) o a h = cc
op_arg_of_erase (jump_rel q o' a' e) o a h = cc

pub jump_abs_of_erase :
    (y : Instruction) (o : OpCode) (d : ℕ)
    → erase y ≡ jump_abs nowhere o 0 d
    → (q : Pos) × (a : ℕ) × (y ≡ jump_abs q o a d)
unfolding erase
jump_abs_of_erase (op q o') o d h = cc
jump_abs_of_erase (op_arg q o' a') o d h = cc
jump_abs_of_erase (label e) o d h = cc
jump_abs_of_erase (jump_abs q o' a e) o d h = (q, a, cc)
jump_abs_of_erase (jump_rel q o' a e) o d h = cc

pub jump_rel_of_erase :
    (y : Instruction) (o : OpCode) (d : ℕ)
    → erase y ≡ jump_rel nowhere o 0 d
    → (q : Pos) × (a : ℕ) × (y ≡ jump_rel q o a d)
unfolding erase
jump_rel_of_erase (op q o') o d h = cc
jump_rel_of_erase (op_arg q o' a') o d h = cc
jump_rel_of_erase (label e) o d h = cc
jump_rel_of_erase (jump_abs q o' a e) o d h = cc
jump_rel_of_erase (jump_rel q o' a e) o d h = (q, a, cc)

-- How a piece of code leaves: at its end with a stack, with an exception, or at a label.
pub data Outcome : Type 0 where
  gives : List Object → Outcome
  raises : Exception → Outcome
  jumps : ℕ → List Object → Outcome
  unknown : Outcome

infixl 5 ◌and_then◌
abbrev pub ◌and_then◌ : Outcome → (List Object → Outcome) → Outcome
gives s and_then f = f s
raises e and_then f = raises e
jumps d s and_then f = jumps d s
unknown and_then f = unknown

module _ (m : Machine) (code : Bytes) where
  -- The loop of `runFrame`, which goes on while no error is returned and `vm.why` is whyNot.
  pub data Steps : Vm → Effect → Type 0 where
    stop : {vm : Vm} → Steps vm (done vm)
    next :
        {vm vm' : Vm} {r : Effect}
        → call_opcode m (fetch_extended code vm) ≡ done vm'
        → vm'.why ≡ why_not
        → Steps vm' r
        → Steps vm r
    fails :
        {vm vm' : Vm} {e : Exception}
        → call_opcode m (fetch_extended code vm) ≡ error e vm'
        → Steps vm (error e vm')

  pub append :
      {vm vm' : Vm} {r : Effect} (steps : Steps vm (done vm')) (rest : Steps vm' r) → Steps vm r
  append stop t = t
  append (next e w s) t = next e w (append s t)

module _ (m : Machine) (p : Program) where
  -- The address of instruction number `k`.
  abbrev pub address : ℕ → ℕ
  address k = length (outputs (take k p.stream))

  -- The machine in front of instruction number `k`, with this stack.
  pub record At (k : ℕ) (s : List Object) (vm : Vm) : Type 0 where
    pub lasti : vm.lasti ≡ pos (address k)
    pub stack : vm.stack ≡ s
    pub extended : vm.extended ≡ false
    pub why : vm.why ≡ why_not

  abbrev pub Goes : ℕ → List Object → ℕ → List Object → Type 0
  Goes k s j s' =
      (vm : Vm) → At k s vm → (vm' : Vm) × Steps m (outputs p.stream) vm (done vm') × At j s' vm'

  abbrev pub Fails : ℕ → List Object → Exception → Type 0
  Fails k s e = (vm : Vm) → At k s vm → (vm' : Vm) × Steps m (outputs p.stream) vm (error e vm')

  -- Instruction number `k` of the stream, up to what assembly fills in.
  pub record Place (k : ℕ) (x : Instruction) : Type 0 where
    pub before : List Instruction
    pub after : List Instruction
    pub it : Instruction
    pub split : p.stream ≡ before ++ it ∷ after
    pub number : length before ≡ k
    pub same : erase it ≡ x

  -- What the machine does from instruction `k` on, where the code's end is instruction `j`.
  abbrev pub Reaches : ℕ → List Object → Outcome → ℕ → Type 0
  Reaches k s (gives s') j = Goes k s j s'
  Reaches k s (raises e) j = Fails k s e
  Reaches k s (jumps d s') j = (i : ℕ) → Place i (label d) → Goes k s i s'
  Reaches k s unknown j = Unit

  -- The machine gets to instruction `k` with the value on top of the stack, or to the error.
  abbrev pub Lands : Vm → ℕ → List Object → Result Object → Type 0
  Lands vm k s (ok x) = (vm' : Vm) × Steps m (outputs p.stream) vm (done vm') × At k (x ∷ s) vm'
  Lands vm k s (err e) = (vm' : Vm) × Steps m (outputs p.stream) vm (error e vm')

  -- A run in front of the rest.
  pub Goes-Reaches :
      (k i j : ℕ) (s s' : List Object) (o : Outcome)
      → Goes k s i s'
      → Reaches i s' o j
      → Reaches k s o j
  Goes-Reaches k i j s s' (gives t) g r =
      λ vm h. let a = g vm h in let b = r a.0 a.2 in (b.0, append m (outputs p.stream) a.1 b.1, b.2)
  Goes-Reaches k i j s s' (raises e) g r =
      λ vm h. let a = g vm h in let b = r a.0 a.2 in (b.0, append m (outputs p.stream) a.1 b.1)
  Goes-Reaches k i j s s' (jumps d t) g r = λ n place vm h.
      let a = g vm h in let b = r n place a.0 a.2 in (b.0, append m (outputs p.stream) a.1 b.1, b.2)
  Goes-Reaches k i j s s' unknown g r = tt

  pub Reaches-then :
      (k i j : ℕ) (s : List Object) (o : Outcome) (f : List Object → Outcome)
      → Reaches k s o i
      → ((s' : List Object) → Reaches i s' (f s') j)
      → Reaches k s (o and_then f) j
  Reaches-then k i j s (gives s') f h g = Goes-Reaches k i j s s' (f s') h (g s')
  Reaches-then k i j s (raises e) f h g = h
  Reaches-then k i j s (jumps d s') f h g = h
  Reaches-then k i j s unknown f h g = tt

  take_all : {A : Type 0} (xs ys : List A) → take (length xs) (xs ++ ys) ≡ xs
  take_all [] ys = refl
  take_all (x ∷ xs) ys = ap (◌∷◌ x) (take_all xs ys)

  take_more :
      {A : Type 0} (xs ys : List A) (y : A) → take (suc (length xs)) (xs ++ y ∷ ys) ≡ xs ++ y ∷ []
  take_more [] ys y = refl
  take_more (x ∷ xs) ys y = ap (◌∷◌ x) (take_more xs ys y)

  pub address-before :
      {k : ℕ} {x : Instruction} (place : Place k x) → address k ≡ length (outputs place.before)
  address-before place =
      rw (sym place.number, place.split, take_all place.before (place.it ∷ place.after)) refl

  pub address-behind :
      {k : ℕ} {x : Instruction} (place : Place k x) → address (suc k) ≡ address k + size place.it
  address-behind place = rw (address-before place) (
      rw (sym place.number, place.split, take_more place.before place.after place.it)
        (length-outputs_snoc place.before place.it))

  abbrev pub lands : Bool → ℕ → List Object → Outcome
  lands true d s = gives s
  lands false d s = jumps d s

  -- A jump to the label is a way to it.
  abbrev pub catches : ℕ → Outcome → Outcome
  catches d (jumps i s) = lands (d == i) i s
  catches d o = o

  -- A label takes no bytes.
  over_label : (k d : ℕ) (s : List Object) → Place k (label d) → Goes k s (suc k) s
  unfolding size
  over_label k d s place =
      let none : size place.it ≡ 0 = rw (label_of_erase place.it d place.same) refl in
      let e : address k ≡ address (suc k) = omega (arith, address-behind place, none) in
      λ vm h. (
        vm,
        stop,
        record { lasti = h.lasti ∙ ap pos e; stack = h.stack; extended = h.extended; why = h.why },
      )

  Goes-then : (k i j : ℕ) (s t u : List Object) → Goes k s i t → Goes i t j u → Goes k s j u
  Goes-then k i j s t u g h = Goes-Reaches k i j s t (gives u) g h

  label_lands :
      (k i d e : ℕ) (s t : List Object)
      → Place i (label d)
      → ((n : ℕ) → Place n (label e) → Goes k s n t)
      → (b : Bool) → (d == e) ≡ b
      → Reaches k s (lands b e t) (suc i)
  label_lands k i d e s t place r true h =
      let same : d ≡ e = ground arith in
      Goes-then k i (suc i) s t t (r i (subst (λ n. Place i (label n)) same place))
        (over_label i d t place)
  label_lands k i d e s t place r false h = r

  pub Reaches-label :
      (k i d : ℕ) (s : List Object) (o : Outcome)
      → Place i (label d)
      → Reaches k s o i
      → Reaches k s (catches d o) (suc i)
  Reaches-label k i d s (gives t) place r = Goes-then k i (suc i) s t t r (over_label i d t place)
  Reaches-label k i d s (raises e) place r = r
  Reaches-label k i d s (jumps e t) place r = label_lands k i d e s t place r (d == e) refl
  Reaches-label k i d s unknown place r = r
