-- ===== src/Compile/Lnotab/Tests.antt =====
-- compile/instructions.go and py/code.go: the line table of a conditional.
use taipan.Prelude.{ℕ, ◌≡◌, refl, List, [], ◌∷◌, some, arith, ◌==◌, if◌then◌else◌}
use taipan.Prelude.Int.{pos}
use taipan.Opcodes.{byte, has_arg, load_const, pop_jump_if_false, jump_forward, nop, return_value}
use taipan.Compile.Instructions.{
  Pos, Instruction, op, op_arg, label, jump_abs, jump_rel, Labels, outputs, size,
}
use taipan.Compile.Instructions.Layout.{Placed}
use taipan.Compile.Lnotab.{lnotab, addr2line, entry, skip_bytes, skip_lines}
use taipan.Compile.Lnotab.Table.{addr2line_own, LinesAscend}

abbrev line : ℕ → ℕ → ℕ → Pos
line n p l = record { n = n; p = p; lineno = l }

-- if not TOS: nop, and a return 300 lines below
abbrev conditional : List Instruction
conditional =
    op_arg (line 0 0 1) load_const 0
    ∷ jump_abs (line 1 3 2) pop_jump_if_false 9 1
    ∷ jump_rel (line 2 6 2) jump_forward 1 2
    ∷ label 1
    ∷ op (line 4 9 3) nop
    ∷ label 2
    ∷ op (line 6 10 303) return_value
    ∷ []

abbrev labels : Labels
labels d = if d == 1 then line 3 9 3 else line 5 10 3

conditional-Placed : Placed labels 0 conditional
unfolding size
conditional-Placed = ground arith

table : lnotab labels conditional ≡ 3 ∷ 1 ∷ 6 ∷ 1 ∷ 1 ∷ 255 ∷ 0 ∷ 45 ∷ []
unfolding lnotab entry skip_bytes skip_lines size
table = refl

ascends : LinesAscend labels 1 conditional
unfolding size
ascends = ground arith

addr2line_own_example : addr2line (pos 1) (lnotab labels conditional) (pos 10) ≡ some (pos 303)
unfolding size outputs byte has_arg
addr2line_own_example =
    addr2line_own labels
      (op_arg (line 0 0 1) load_const 0
        ∷ jump_abs (line 1 3 2) pop_jump_if_false 9 1
        ∷ jump_rel (line 2 6 2) jump_forward 1 2
        ∷ label 1
        ∷ op (line 4 9 3) nop
        ∷ label 2
        ∷ [])
      [] (op (line 6 10 303) return_value) (omega arith) conditional-Placed ascends (omega arith)
      (omega arith)
