-- ===== src/Compile/Expressions/Panics.antt =====
-- compile/compile.go: the panics of the compiler, on the pieces that expressions are compiled to.
use mathlib.Core.Option
use taipan.Prelude.{ℕ, ◌≡◌, refl, true, false, Option, none, some, String}
use taipan.Ast
use taipan.Ast.{
  BoolOpNumber, OperatorNumber, UnaryOpNumber, Expr, Exprs, Comparisons, last_expr, more_exprs,
  last_comparison, more_comparisons, load,
}
use taipan.Opcodes
use taipan.Opcodes.{OpCode, byte, has_arg}
use taipan.Symtable.{BlockType, function_block, class_block, module_block}
use taipan.Compile.Instructions.{Instruction, Pos, op, op_arg, label, jump_abs, jump_rel}
use taipan.Compile.Emission.{
  Compiler, Code, Scoping, ◌then◌, emit_instruction, emit_op, emit_op_arg, emit_label, jump,
  emit_jump, jump_kind, with_labels, load_const, op_name, name_op, emit_name, name_opcode, OpType,
  op_fast, op_global, op_deref, op_name_op, reserved, is_class,
}
use taipan.Compile.Expressions.{set_lineno, compare_end, bool_opcode, binary_opcode, unary_opcode}

abbrev pub Compiles : Code → Type 0
Compiles code = (c : Compiler) → (c' : Compiler) × (code c ≡ some c')

pub bind_some :
    (r : Option Compiler) (n : Code) {c : Compiler}
    → r ≡ some c
    → Compiles n
    → (c' : Compiler) × (Option.bind r n ≡ some c')
unfolding Option.bind
bind_some none n e h = cc
bind_some (some c) n e h = h c

pub Compiles-then : (m n : Code) → Compiles m → Compiles n → Compiles (m then n)
unfolding ◌then◌
Compiles-then m n h k c = let a = h c in bind_some (m c) n a.1 k

pub Compiles-emit_instruction : (x : Pos → Instruction) → Compiles (emit_instruction x)
unfolding emit_instruction
Compiles-emit_instruction x c = (_, refl)

pub Compiles-op : (o : OpCode) → has_arg (byte o) ≡ false → Compiles (emit_op o)
unfolding emit_op
Compiles-op o h c = rw h (Compiles-emit_instruction (λ q. op q o) c)

pub Compiles-op_arg : (o : OpCode) (a : ℕ) → has_arg (byte o) ≡ true → Compiles (emit_op_arg o a)
unfolding emit_op_arg
Compiles-op_arg o a h c = rw h (Compiles-emit_instruction (λ q. op_arg q o a) c)

pub Compiles-label : (d : ℕ) → Compiles (emit_label d)
unfolding emit_label
Compiles-label d = Compiles-emit_instruction (λ q. label d)

pub Compiles-lineno : (n : ℕ) → Compiles (set_lineno n)
unfolding set_lineno
Compiles-lineno n c = (_, refl)

pub Compiles-labels : (f : ℕ → ℕ → Code) → ((d e : ℕ) → Compiles (f d e)) → Compiles (with_labels f)
unfolding with_labels
Compiles-labels f h c = h c.labels _ _

pub Compiles-bool : (o : BoolOpNumber) (d : ℕ) → Compiles (jump (bool_opcode o) d)
unfolding jump emit_jump jump_kind bool_opcode
Compiles-bool Ast.and d =
    Compiles-emit_instruction (λ q. jump_abs q Opcodes.jump_if_false_or_pop 0 d)
Compiles-bool Ast.or d = Compiles-emit_instruction (λ q. jump_abs q Opcodes.jump_if_true_or_pop 0 d)

pub Compiles-pop_jump : (d : ℕ) → Compiles (jump Opcodes.pop_jump_if_false d)
unfolding jump emit_jump jump_kind
Compiles-pop_jump d = Compiles-emit_instruction (λ q. jump_abs q Opcodes.pop_jump_if_false 0 d)

pub Compiles-forward : (d : ℕ) → Compiles (jump Opcodes.jump_forward d)
unfolding jump emit_jump jump_kind
Compiles-forward d = Compiles-emit_instruction (λ q. jump_rel q Opcodes.jump_forward 0 d)

pub Compiles-binary : (o : OperatorNumber) → Compiles (emit_op (binary_opcode o))
unfolding binary_opcode has_arg byte
Compiles-binary Ast.add = Compiles-op _ refl
Compiles-binary _ = Compiles-op _ refl

pub Compiles-unary : (o : UnaryOpNumber) → Compiles (emit_op (unary_opcode o))
unfolding unary_opcode has_arg byte
Compiles-unary Ast.invert = Compiles-op _ refl
Compiles-unary _ = Compiles-op _ refl

pub Compiles-const : (scoping : Scoping) (x : _) → Compiles (load_const scoping x)
unfolding load_const has_arg byte
Compiles-const scoping x c = Compiles-op_arg Opcodes.load_const _ refl _

pub Compiles-op_name : (id : String) → Compiles (op_name Opcodes.load_attr id)
unfolding op_name has_arg byte
Compiles-op_name id c = Compiles-op_arg Opcodes.load_attr _ refl _

pub Compiles-subscr : Compiles (emit_op Opcodes.binary_subscr)
unfolding has_arg byte
Compiles-subscr = Compiles-op Opcodes.binary_subscr refl

pub Compiles-dup_top : Compiles (emit_op Opcodes.dup_top)
unfolding has_arg byte
Compiles-dup_top = Compiles-op Opcodes.dup_top refl

pub Compiles-rot_three : Compiles (emit_op Opcodes.rot_three)
unfolding has_arg byte
Compiles-rot_three = Compiles-op Opcodes.rot_three refl

pub Compiles-compare_op : (a : ℕ) → Compiles (emit_op_arg Opcodes.compare_op a)
unfolding has_arg byte
Compiles-compare_op a = Compiles-op_arg Opcodes.compare_op a refl

-- Every way to load a name has its opcode, which takes an argument.
pub load_name_compiles :
    (t : OpType) (b : BlockType) (r : ℕ × Compiler)
    → (c' : Compiler) × (emit_name (name_opcode t load b) r ≡ some c')
unfolding name_opcode emit_name has_arg byte is_class
load_name_compiles op_fast b r = Compiles-op_arg Opcodes.load_fast r.0 refl r.1
load_name_compiles op_global b r = Compiles-op_arg Opcodes.load_global r.0 refl r.1
load_name_compiles op_name_op b r = Compiles-op_arg Opcodes.load_name r.0 refl r.1
load_name_compiles op_deref function_block r = Compiles-op_arg Opcodes.load_deref r.0 refl r.1
load_name_compiles op_deref class_block r = Compiles-op_arg Opcodes.load_classderef r.0 refl r.1
load_name_compiles op_deref module_block r = Compiles-op_arg Opcodes.load_deref r.0 refl r.1

pub Compiles-name_op :
    (scoping : Scoping) (id : String) → reserved id ≡ false → Compiles (name_op scoping id load)
unfolding name_op
Compiles-name_op scoping id h c = rw h (load_name_compiles _ scoping.block_type _)

pub Compiles-compare_end :
    (d end : ℕ) (cs : Comparisons) (a : Code) → Compiles a → Compiles (compare_end d end cs a)
unfolding compare_end has_arg byte
Compiles-compare_end d end (last_comparison o e) a h = h
Compiles-compare_end d end (more_comparisons o e cs) a h =
    Compiles-then _ _
      (Compiles-then _ _
        (Compiles-then _ _
          (Compiles-then _ _ (Compiles-then _ _ h (Compiles-forward end)) (Compiles-label d))
          (Compiles-op Opcodes.rot_two refl))
        (Compiles-op Opcodes.pop_top refl))
      (Compiles-label end)
