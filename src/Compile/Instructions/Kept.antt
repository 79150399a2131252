-- ===== src/Compile/Instructions/Kept.antt =====
-- compile/instructions.go: what the assembly of a stream leaves as it is.
use mathlib.Core.Option
use taipan.Prelude.{
  ℕ, zero, suc, ◌+◌, ◌-◌, ◌≡◌, refl, sym, ◌∙◌, Bool, true, false, Option, none, some, List, [], ◌∷◌,
  ◌==◌, ltb, if◌then◌else◌, Bytes, map,
}
use taipan.Compile.Instructions.{
  Instruction, op, op_arg, label, jump_abs, jump_rel, Pos, Labels, u32, set_pos, pos_changed,
  arg_size, size, resolve, resolve_if, pass_loop, pass, Passed, put, assemble_loop, assemble,
  outputs,
}
use taipan.Compile.Instructions.Layout.{
  Placed, Moves, Finished, first_Finished, some_injective, none_ne,
}

abbrev pub nowhere : Pos
nowhere = record { n = 0; p = 0; lineno = 0 }

-- An instruction without what assembly fills in: its position and a jump's argument.
unfoldable pub erase : Instruction → Instruction
erase (op q o) = op nowhere o
erase (op_arg q o a) = op_arg nowhere o a
erase (label d) = label d
erase (jump_abs q o a d) = jump_abs nowhere o 0 d
erase (jump_rel q o a d) = jump_rel nowhere o 0 d

erase-set_pos :
    (i addr : ℕ) (ls : Labels) (x : Instruction) → erase (set_pos i addr ls x).1 ≡ erase x
unfolding erase set_pos
erase-set_pos i addr ls (op q o) = refl
erase-set_pos i addr ls (op_arg q o a) = refl
erase-set_pos i addr ls (label d) = refl
erase-set_pos i addr ls (jump_abs q o a d) = refl
erase-set_pos i addr ls (jump_rel q o a d) = refl

-- What resolving returns is the same instruction.
abbrev Same : Instruction → Option Instruction → Type 0
Same x none = Unit
Same x (some x') = erase x' ≡ erase x

if_Same :
    (x : Instruction) (b : Bool) (r s : Option Instruction)
    → Same x r
    → Same x s
    → Same x (if b then r else s)
if_Same x true r s h k = h
if_Same x false r s h k = k

resolve-Same : (ls : Labels) (x : Instruction) → Same x (resolve ls x)
unfolding resolve erase
resolve-Same ls (op q o) = refl
resolve-Same ls (op_arg q o a) = refl
resolve-Same ls (label d) = refl
resolve-Same ls (jump_abs q o a d) = refl
resolve-Same ls (jump_rel q o a d) =
    let x = jump_rel q o a d in
    let current_pos = u32 (q.p + arg_size a) in
    let dist = (ls d).p - current_pos in
    let same = arg_size dist == arg_size a in
    let far = some (jump_rel q o dist d) in
    if_Same x (ltb (ls d).p current_pos) none (if same then far else none) tt
      (if_Same x same far none refl tt)

resolve_if-Same : (b : Bool) (ls : Labels) (x : Instruction) → Same x (resolve_if b ls x)
unfolding resolve_if
resolve_if-Same true ls x = resolve-Same ls x
resolve_if-Same false ls x = refl

-- What a pass leaves is the same stream.
abbrev Keeps : List Instruction → Option Passed → Type 0
Keeps xs none = Unit
Keeps xs (some (c, ls, ys)) = map erase ys ≡ map erase xs

put-Keeps :
    (xs : List Instruction) (x x' : Instruction) (changed : Bool) (r : Option Passed)
    → erase x' ≡ erase x
    → Keeps xs r
    → Keeps (x ∷ xs) (Option.map (put changed x') r)
put-Keeps xs x x' changed none e h = tt
put-Keeps xs x x' changed (some (c, ls, ys)) e h = cc

bind_Keeps :
    (xs : List Instruction) (x : Instruction) (o : Option Instruction)
    (f : Instruction → Option Passed)
    → Same x o
    → ((x' : Instruction) → erase x' ≡ erase x → Keeps (x ∷ xs) (f x'))
    → Keeps (x ∷ xs) (Option.bind o f)
unfolding Option.bind
bind_Keeps xs x none f e h = tt
bind_Keeps xs x (some x') f e h = h x' e

Same-trans : (x y : Instruction) (o : Option Instruction) → Same y o → erase y ≡ erase x → Same x o
Same-trans x y none h e = tt
Same-trans x y (some x') h e = h ∙ e

pass_loop-Keeps :
    (xs : List Instruction) (resolving : Bool) (i addr : ℕ) (ls : Labels)
    → Keeps xs (pass_loop resolving i addr ls xs)
unfolding pass_loop
pass_loop-Keeps [] resolving i addr ls = refl
pass_loop-Keeps (x ∷ xs) resolving i addr ls =
    let moved = set_pos i addr ls x in
    bind_Keeps xs x _ _
      (Same-trans x moved.1 _ (resolve_if-Same resolving moved.0 moved.1)
        (erase-set_pos i addr ls x))
      λ x' e.
        put-Keeps xs x x' (pos_changed addr ls x) _ e
          (pass_loop-Keeps xs resolving (i + 1) (u32 (addr + size x')) moved.0)

-- And so is what the passes leave.
abbrev KeepsAll : List Instruction → Option (Labels × List Instruction) → Type 0
KeepsAll xs none = Unit
KeepsAll xs (some (ls, ys)) = map erase ys ≡ map erase xs

KeepsAll-trans :
    (xs ys : List Instruction) (r : Option (Labels × List Instruction))
    → KeepsAll ys r
    → map erase ys ≡ map erase xs
    → KeepsAll xs r
KeepsAll-trans xs ys none h e = tt
KeepsAll-trans xs ys (some (ls, zs)) h e = h ∙ e

next_Keeps :
    (xs : List Instruction) (fuel k : ℕ) (r : Option Passed)
    → Keeps xs r
    → ((ls : Labels) (ys : List Instruction) → KeepsAll ys (assemble_loop fuel (k + 1) ls ys))
    → KeepsAll xs (
        Option.bind r (λ r.
          let rest = assemble_loop fuel (k + 1) r.1 r.2 in if r.0 then rest else some (r.1, r.2)))
unfolding Option.bind
next_Keeps xs fuel k none e h = tt
next_Keeps xs fuel k (some (true, ls, ys)) e h = KeepsAll-trans xs ys _ (h ls ys) e
next_Keeps xs fuel k (some (false, ls, ys)) e h = e

assemble_loop-Keeps :
    (fuel k : ℕ) (ls : Labels) (xs : List Instruction) → KeepsAll xs (assemble_loop fuel k ls xs)
unfolding assemble_loop pass
assemble_loop-Keeps zero k ls xs = tt
assemble_loop-Keeps (suc fuel) k ls xs =
    next_Keeps xs fuel k _ (pass_loop-Keeps xs (ltb 0 k) 0 0 ls)
      (λ ls' ys. assemble_loop-Keeps fuel (k + 1) ls' ys)

written_kept :
    (xs : List Instruction) (m : Option (Labels × List Instruction)) {out : Bytes}
    → Finished m
    → KeepsAll xs m
    → Option.map (λ r. outputs r.1) m ≡ some out
    → (ls : Labels) × (ys : List Instruction) × (out ≡ outputs ys)
      × Placed ls 0 ys
      × (map erase ys ≡ map erase xs)
written_kept xs none f k e = none_ne e
written_kept xs (some (ls, ys)) f k e = (ls, ys, sym (some_injective e), f, k)

-- When Assemble succeeds on a stream whose first pass moves an instruction, its bytes are the output
-- of a stream with the same instructions in the same order, which differs from the emitted one at
-- most in the positions and in the arguments of the jumps. This stream is placed from 0 on, with
-- addresses in 32 bits: each instruction stands where those before it end, and each jump's argument
-- leads to where the label of that jump stands, counted from 0 in an absolute jump and from the end
-- of the jump in a relative one.
pub assemble-kept :
    (ls : Labels) (xs : List Instruction) {out : Bytes}
    → Moves ls xs
    → assemble ls xs ≡ some out
    → (ls' : Labels) × (ys : List Instruction) × (out ≡ outputs ys)
      × Placed ls' 0 ys
      × (map erase ys ≡ map erase xs)
unfolding assemble
assemble-kept ls xs h e =
    written_kept xs _ (first_Finished 9 ls xs h) (assemble_loop-Keeps 10 0 ls xs) e
