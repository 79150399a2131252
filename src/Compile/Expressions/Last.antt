-- ===== src/Compile/Expressions/Last.antt =====
-- compile/compile.go: the last instruction of an expression's code.
use mathlib.Core.Option
use taipan.Prelude.{
  ℕ, ◌≡◌, refl, ◌∙◌, false, Option, none, some, List, [], ◌∷◌, ◌++◌, ◌==◌, String, Bool-cases, inl,
  inr,
}
use taipan.Ast
use taipan.Ast.{
  OperatorNumber, UnaryOpNumber, Expr, Comparisons, last_comparison, more_comparisons, load,
}
use taipan.Opcodes
use taipan.Opcodes.{OpCode, byte, has_arg, return_value}
use taipan.Compile.Instructions.{Instruction, op, op_arg, label, Pos, is_return, ends_with_return}
use taipan.Compile.Emission.{
  Compiler, Code, Scoping, ◌then◌, emit_instruction, emit_op, emit_op_arg, emit_label, with_labels,
  load_const, op_name, name_op, emit_name, jump, reserved,
}
use taipan.Compile.Expressions.{
  expr, values, comparisons, bool_opcode, compare_end, binary_opcode, unary_opcode,
}

-- The emitted code is there, and does not end with a return.
abbrev pub EndsOpen : Option Compiler → Type 0
EndsOpen none = Unit
EndsOpen (some c) = ends_with_return c.op_codes ≡ false

abbrev Open : Code → Type 0
Open code = (c : Compiler) → EndsOpen (code c)

ends_with_return_snoc :
    (xs : List Instruction) (x : Instruction) → ends_with_return (xs ++ x ∷ []) ≡ is_return x
unfolding ends_with_return
ends_with_return_snoc [] x = refl
ends_with_return_snoc (y ∷ []) x = refl
ends_with_return_snoc (y ∷ z ∷ xs) x = ends_with_return_snoc (z ∷ xs) x

Open-emit_instruction :
    (x : Pos → Instruction) → ((q : Pos) → is_return (x q) ≡ false) → Open (emit_instruction x)
unfolding emit_instruction
Open-emit_instruction x h c = ends_with_return_snoc c.op_codes _ ∙ h _

bind_EndsOpen : (r : Option Compiler) (n : Code) → Open n → EndsOpen (Option.bind r n)
unfolding Option.bind
bind_EndsOpen none n h = tt
bind_EndsOpen (some c) n h = h c

Open-then : (m n : Code) → Open n → Open (m then n)
unfolding ◌then◌
Open-then m n h c = bind_EndsOpen (m c) n h

Open-label : (m : Code) (d : ℕ) → Open (m then emit_label d)
unfolding emit_label is_return
Open-label m d = Open-then m (emit_label d) (Open-emit_instruction (λ q. label d) (λ q. refl))

Open-op : (o : OpCode) → (byte o == byte return_value) ≡ false → Open (emit_op o)
unfolding emit_op is_return
Open-op o h c = elim (Bool-cases (has_arg (byte o))) [
  | inl arg ↦ rw arg tt
  | inr plain ↦ rw plain (Open-emit_instruction (λ q. op q o) (λ q. h) c)
]

Open-op_arg : (o : OpCode) (a : ℕ) → Open (emit_op_arg o a)
unfolding emit_op_arg is_return
Open-op_arg o a c = elim (Bool-cases (has_arg (byte o))) [
  | inl arg ↦ rw arg (Open-emit_instruction (λ q. op_arg q o a) (λ q. refl) c)
  | inr plain ↦ rw plain tt
]

Open-labels : (f : ℕ → ℕ → Code) → ((d e : ℕ) → Open (f d e)) → Open (with_labels f)
unfolding with_labels
Open-labels f h c = h c.labels _ _

binary_returns_not : (o : OperatorNumber) → (byte (binary_opcode o) == byte return_value) ≡ false
unfolding binary_opcode byte
binary_returns_not Ast.add = refl
binary_returns_not _ = refl

unary_returns_not : (o : UnaryOpNumber) → (byte (unary_opcode o) == byte return_value) ≡ false
unfolding unary_opcode byte
unary_returns_not Ast.invert = refl
unary_returns_not _ = refl

Open-name : (o : Option OpCode) (r : ℕ × Compiler) → EndsOpen (emit_name o r)
unfolding emit_name
Open-name none r = tt
Open-name (some o) r = Open-op_arg o r.0 r.1

Open-name_op : (scoping : Scoping) (id : String) → Open (name_op scoping id load)
unfolding name_op
Open-name_op scoping id c = elim (Bool-cases (reserved id)) [
  | inl refused ↦ rw refused tt
  | inr other ↦ rw other (Open-name _ _)
]

Open-const : (scoping : Scoping) (x : _) → Open (load_const scoping x)
unfolding load_const
Open-const scoping x c = Open-op_arg Opcodes.load_const _ _

Open-op_name : (id : String) → Open (op_name Opcodes.load_attr id)
unfolding op_name
Open-op_name id c = Open-op_arg Opcodes.load_attr _ _

subscr_returns_not : (byte Opcodes.binary_subscr == byte return_value) ≡ false
unfolding byte
subscr_returns_not = refl

Open-compare_end :
    (scoping : Scoping) (d end : ℕ) (cs : Comparisons)
    → Open (compare_end d end cs (comparisons scoping d cs))
unfolding compare_end expr
Open-compare_end scoping d end (last_comparison o e) =
    Open-then _ _ (Open-op_arg Opcodes.compare_op _)
Open-compare_end scoping d end (more_comparisons o e cs) = Open-label _ end

-- No expression's code ends with a return.
pub expr-EndsOpen : (scoping : Scoping) (e : Expr) (c : Compiler) → EndsOpen (expr scoping e c)
unfolding expr
expr-EndsOpen scoping (Ast.bool_op n o es) =
    Open-then _ _ (Open-labels _ (λ d e. Open-label (values scoping (bool_opcode o) d es) d))
expr-EndsOpen scoping (Ast.bin_op n l o r) = Open-then _ _ (Open-op _ (binary_returns_not o))
expr-EndsOpen scoping (Ast.unary_op n o e) = Open-then _ _ (Open-op _ (unary_returns_not o))
expr-EndsOpen scoping (Ast.if_exp n test body orelse) = Open-then _ _ (
    Open-labels _ (λ d e.
      Open-label
        (expr scoping test
          then jump Opcodes.pop_jump_if_false d
          then expr scoping body
          then jump Opcodes.jump_forward e
          then emit_label d
          then expr scoping orelse)
        e))
expr-EndsOpen scoping (Ast.compare n l cs) =
    Open-then _ _ (Open-labels _ (λ d end. Open-compare_end scoping d end cs))
expr-EndsOpen scoping (Ast.num n x) = Open-then _ _ (Open-const scoping x)
expr-EndsOpen scoping (Ast.str n x) = Open-then _ _ (Open-const scoping x)
expr-EndsOpen scoping (Ast.bytes n x) = Open-then _ _ (Open-const scoping x)
expr-EndsOpen scoping (Ast.name_constant n x) = Open-then _ _ (Open-const scoping x)
expr-EndsOpen scoping (Ast.attribute n e id) = Open-then _ _ (Open-op_name id)
expr-EndsOpen scoping (Ast.subscript n e i) =
    Open-then _ _ (Open-op Opcodes.binary_subscr subscr_returns_not)
expr-EndsOpen scoping (Ast.name n id) = Open-then _ _ (Open-name_op scoping id)
