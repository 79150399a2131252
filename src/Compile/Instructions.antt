-- ===== src/Compile/Instructions.antt =====
-- compile/instructions.go: instructions and the passes that assemble them. A uint32 is a natural
-- number that every operation takes modulo 2^32. A `*Label` is shared by the stream and by the jumps
-- to it, so its position lives in a store under the label's identity. `none` is a panic.
pub mod Layout
pub mod Kept
pub mod Decode
pub mod Targets
use mathlib.Core.Option
use taipan.Prelude.{
  ℕ, zero, suc, ◌+◌, ◌-◌, ◌/◌, ◌%◌, Bool, true, false, not, ◌||◌, Option, none, some, List, [], ◌∷◌,
  ◌++◌, ◌==◌, ltb, leb, if◌then◌else◌, Bytes,
}
use taipan.Opcodes.{OpCode, byte, extended_arg, return_value}

-- `pos`
pub record Pos : Type 0 where
  pub n : ℕ
  pub p : ℕ
  pub lineno : ℕ

pub data Instruction : Type 0 where
  op : Pos → OpCode → Instruction
  op_arg : Pos → OpCode → ℕ → Instruction
  label : ℕ → Instruction
  jump_abs jump_rel : Pos → OpCode → ℕ → ℕ → Instruction

-- The labels that the stream and its jumps point to.
abbrev pub Labels : Type 0
Labels = ℕ → Pos

abbrev pub update : Labels → ℕ → Pos → Labels
update ls d q = λ e. if e == d then q else ls e

abbrev pub u32 : ℕ → ℕ
u32 n = n % 0x1_0000_0000

-- `instr.Pos()`
abbrev pub pos_of : Labels → Instruction → Pos
pos_of ls (op q o) = q
pos_of ls (op_arg q o a) = q
pos_of ls (label d) = ls d
pos_of ls (jump_abs q o a d) = q
pos_of ls (jump_rel q o a d) = q

abbrev move : ℕ → ℕ → Pos → Pos
move n p q = record q { n = u32 n; p = p }

-- What `SetPos` changes: the label, or the instruction itself.
unfoldable pub set_pos : ℕ → ℕ → Labels → Instruction → Labels × Instruction
set_pos n p ls (op q o) = (ls, op (move n p q) o)
set_pos n p ls (op_arg q o a) = (ls, op_arg (move n p q) o a)
set_pos n p ls (label d) = (update ls d (move n p (ls d)), label d)
set_pos n p ls (jump_abs q o a d) = (ls, jump_abs (move n p q) o a d)
set_pos n p ls (jump_rel q o a d) = (ls, jump_rel (move n p q) o a d)

-- What `SetPos` returns: `oldPos != newPos`.
abbrev pub pos_changed : ℕ → Labels → Instruction → Bool
pos_changed p ls x = not ((pos_of ls x).p == p)

-- `OpArg.Size`
abbrev pub arg_size : ℕ → ℕ
arg_size a = if leb a 0xffff then 3 else 6

unfoldable pub size : Instruction → ℕ
size (op q o) = 1
size (op_arg q o a) = arg_size a
size (label d) = 0
size (jump_abs q o a d) = arg_size a
size (jump_rel q o a d) = arg_size a

-- `OpArg.Output`
unfoldable pub arg_output : OpCode → ℕ → Bytes
unfolding byte
arg_output o a =
    let low = byte o ∷ a % 256 ∷ a / 256 % 256 ∷ [] in
    if ltb 0xffff a then byte extended_arg ∷ a / 65536 % 256 ∷ a / 16777216 % 256 ∷ low else low

unfoldable pub output : Instruction → Bytes
unfolding arg_output
output (op q o) = byte o ∷ []
output (op_arg q o a) = arg_output o a
output (label d) = []
output (jump_abs q o a d) = arg_output o a
output (jump_rel q o a d) = arg_output o a

-- `JumpAbs.Resolve` and `JumpRel.Resolve`, from the size and the end of the jump as it stands.
unfoldable pub resolve : Labels → Instruction → Option Instruction
resolve ls (jump_abs q o a d) = some (jump_abs q o (ls d).p d)
resolve ls (jump_rel q o a d) =
    let current_pos = u32 (q.p + arg_size a) in
    let dist = (ls d).p - current_pos in
    if ltb (ls d).p current_pos
    then none
    else if arg_size dist == arg_size a
    then some (jump_rel q o dist d)
    else none
resolve ls x = some x

abbrev pub Passed : Type 0
Passed = Bool × Labels × List Instruction

abbrev resolve_if : Bool → Labels → Instruction → Option Instruction
unfolding resolve
resolve_if true ls x = resolve ls x
resolve_if false ls x = some x

-- The instruction in front of what the rest of the pass made.
abbrev put : Bool → Instruction → Passed → Passed
put changed x (c, ls, xs) = (changed || c, ls, x ∷ xs)

-- The loop of `Pass`, at instruction number `i` and address `addr`.
unfoldable pub pass_loop : Bool → ℕ → ℕ → Labels → List Instruction → Option Passed
unfolding set_pos size resolve
pass_loop resolving i addr ls [] = some (false, ls, [])
pass_loop resolving i addr ls (x ∷ xs) =
    let moved = set_pos i addr ls x in
    Option.bind (resolve_if resolving moved.0 moved.1) (λ x'.
      Option.map (put (pos_changed addr ls x) x')
        (pass_loop resolving (i + 1) (u32 (addr + size x')) moved.0 xs))

unfoldable pub pass : ℕ → Labels → List Instruction → Option Passed
unfolding pass_loop
pass k ls xs = pass_loop (ltb 0 k) 0 0 ls xs

-- The passes of `Assemble`, with `fuel` of the ten left; pass number `k` is next.
unfoldable pub assemble_loop :
    ℕ → ℕ → Labels → List Instruction → Option (Labels × List Instruction)
unfolding pass
assemble_loop zero k ls xs = none
assemble_loop (suc fuel) k ls xs =
    Option.bind (pass k ls xs)
      (λ r. let rest = assemble_loop fuel (k + 1) r.1 r.2 in if r.0 then rest else some (r.1, r.2))

unfoldable pub outputs : List Instruction → Bytes
unfolding output
outputs [] = []
outputs (x ∷ xs) = output x ++ outputs xs

unfoldable pub assemble : Labels → List Instruction → Option Bytes
unfolding assemble_loop outputs
assemble ls xs = Option.map (λ r. outputs r.1) (assemble_loop 10 0 ls xs)

unfoldable pub is_return : Instruction → Bool
is_return (op q o) = byte o == byte return_value
is_return x = false

unfoldable pub ends_with_return : List Instruction → Bool
unfolding is_return byte
ends_with_return [] = false
ends_with_return (x ∷ []) = is_return x
ends_with_return (x ∷ y ∷ xs) = ends_with_return (y ∷ xs)
