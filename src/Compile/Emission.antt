-- ===== src/Compile/Emission.antt =====
-- compile/compile.go: the emission of instructions, the tables of constants and names, and NameOp.
-- The compiler's state is passed on, and `none` is a panic. A new `*Label` is the next number.
use mathlib.Core.Option
use taipan.Prelude.{
  ℕ, ◌+◌, Bool, true, false, ◌&&◌, ◌||◌, not, Option, none, some, List, [], ◌∷◌, ◌++◌, length,
  String, str_eq, if◌then◌else◌,
}
use taipan.Exceptions.{Result, ok, err}
use taipan.Opcodes
use taipan.Opcodes.{OpCode, byte, has_arg}
use taipan.Vm.State.{Object}
use taipan.Symtable.{
  Scope, scope_invalid, scope_local, scope_global_explicit, scope_global_implicit, scope_free,
  scope_cell, BlockType, function_block, class_block,
}
use taipan.Compile.Instructions.{Instruction, op_arg, label, jump_abs, jump_rel, Pos, u32}
use taipan.Ast.{Identifier, ExprContext, load, store, del, aug_load, aug_store, param}

-- What the compiler asks of the objects and of its symbol table: whether two constants have one
-- type, whether `py.Eq` answers True for them, and the block's `GetScope`, `Type` and
-- `Unoptimized != 0`.
pub record Scoping : Type 0 where
  pub same_type : Object → Object → Bool
  pub eq : Object → Object → Result Bool
  pub get_scope : String → Scope
  pub block_type : BlockType
  pub unoptimized : Bool

-- The fields of the compiler and of its code object that expressions use.
pub record Compiler : Type 0 where
  pub lineno : ℕ
  pub consts : List Object
  pub names : List String
  pub varnames : List String
  pub freevars : List String
  pub cellvars : List String
  pub op_codes : List Instruction
  pub labels : ℕ

abbrev pub Code : Type 0
Code = Compiler → Option Compiler

-- One statement of the compiler after another.
infixl 4 ◌then◌
unfoldable pub ◌then◌ : Code → Code → Code
m then n = λ c. Option.bind (m c) n

unfoldable pub emit_instruction : (Pos → Instruction) → Code
emit_instruction x c =
    some (record c { op_codes = c.op_codes ++ x (record { n = 0; p = 0; lineno = c.lineno }) ∷ [] })

unfoldable pub emit_op : OpCode → Code
unfolding emit_instruction
emit_op o c = if has_arg (byte o) then none else emit_instruction (λ q. Instruction.op q o) c

unfoldable pub emit_op_arg : OpCode → ℕ → Code
unfolding emit_instruction
emit_op_arg o a c = if has_arg (byte o) then emit_instruction (λ q. op_arg q o a) c else none

unfoldable pub emit_label : ℕ → Code
unfolding emit_instruction
emit_label d = emit_instruction (λ q. label d)

-- The two kinds of jump, and the opcodes that are none.
pub data JumpKind : Type 0 where
  absolute relative no_jump : JumpKind

unfoldable pub jump_kind : OpCode → JumpKind
jump_kind Opcodes.jump_if_false_or_pop = absolute
jump_kind Opcodes.jump_if_true_or_pop = absolute
jump_kind Opcodes.jump_absolute = absolute
jump_kind Opcodes.pop_jump_if_false = absolute
jump_kind Opcodes.pop_jump_if_true = absolute
jump_kind Opcodes.continue_loop = absolute
jump_kind Opcodes.jump_forward = relative
jump_kind Opcodes.setup_with = relative
jump_kind Opcodes.for_iter = relative
jump_kind Opcodes.setup_loop = relative
jump_kind Opcodes.setup_except = relative
jump_kind Opcodes.setup_finally = relative
jump_kind _ = no_jump

unfoldable pub emit_jump : JumpKind → OpCode → ℕ → Code
unfolding emit_instruction
emit_jump absolute o d = emit_instruction (λ q. jump_abs q o 0 d)
emit_jump relative o d = emit_instruction (λ q. jump_rel q o 0 d)
emit_jump no_jump o d = λ c. none

unfoldable pub jump : OpCode → ℕ → Code
unfolding emit_jump jump_kind
jump o d = emit_jump (jump_kind o) o d

-- Two labels that are not in the stream yet. A BoolOp uses the first alone, and a Compare makes its
-- second one here too.
unfoldable pub with_labels : (ℕ → ℕ → Code) → Code
with_labels f c = f c.labels (c.labels + 1) (record c { labels = c.labels + 2 })

-- `eq, err := py.Eq(obj, c)`: an error is logged, and the search goes on.
abbrev pub is_equal : Result Bool → Bool
is_equal (ok b) = b
is_equal (err e) = false

-- `FindId`, from index `i` on; `none` is -1.
unfoldable pub find_id : String → ℕ → List String → Option ℕ
find_id id i [] = none
find_id id i (s ∷ names) = if str_eq id s then some i else find_id id (i + 1) names

-- An index that was found, or that of the new last element.
abbrev pub index_or : {A : Type 0} → Option ℕ → A → List A → ℕ × List A
index_or (some i) x xs = (u32 i, xs)
index_or none x xs = (u32 (length xs), xs ++ x ∷ [])

-- `Index`
unfoldable pub index_name : String → List String → ℕ × List String
unfolding find_id
index_name id names = index_or (find_id id 0 names) id names

-- `Name`, and the instruction that takes its result.
unfoldable pub op_name : OpCode → Identifier → Code
unfolding index_name emit_op_arg
op_name o id c = let i = index_name id c.names in emit_op_arg o i.0 (record c { names = i.1 })

module _ (scoping : Scoping) where
  unfoldable pub find_const : Object → ℕ → List Object → Option ℕ
  find_const obj i [] = none
  find_const obj i (c ∷ consts) =
      if scoping.same_type obj c && is_equal (scoping.eq obj c)
      then some i
      else find_const obj (i + 1) consts

  -- `Const`
  unfoldable pub const : Object → List Object → ℕ × List Object
  unfolding find_const
  const obj consts = index_or (find_const obj 0 consts) obj consts

  unfoldable pub load_const : Object → Code
  unfolding const emit_op_arg
  load_const obj c =
      let i = const obj c.consts in emit_op_arg Opcodes.load_const i.0 (record c { consts = i.1 })

-- `NameOp`'s four kinds of operation.
pub data OpType : Type 0 where
  op_fast op_global op_deref op_name_op : OpType

-- The table of names that an operation's argument is an index of.
pub data Table : Type 0 where
  name_table varname_table freevar_table cellvar_table : Table

unfoldable pub is_function : BlockType → Bool
is_function function_block = true
is_function _ = false

unfoldable pub is_class : BlockType → Bool
is_class class_block = true
is_class _ = false

unfoldable pub op_type : Scope → BlockType → Bool → OpType
unfolding is_function
op_type scope_free t u = op_deref
op_type scope_cell t u = op_deref
op_type scope_local t u = if is_function t then op_fast else op_name_op
op_type scope_global_implicit t u = if is_function t && not u then op_global else op_name_op
op_type scope_global_explicit t u = op_global
op_type scope_invalid t u = op_name_op

unfoldable pub table_of : Scope → OpType → Table
table_of scope_free t = freevar_table
table_of scope_cell t = cellvar_table
table_of s op_fast = varname_table
table_of s t = name_table

-- The opcode of a kind of operation in a context; `none` is a panic.
unfoldable pub name_opcode : OpType → ExprContext → BlockType → Option OpCode
unfolding is_class
name_opcode t param b = none
name_opcode op_deref load b =
    some (if is_class b then Opcodes.load_classderef else Opcodes.load_deref)
name_opcode op_deref aug_load b =
    some (if is_class b then Opcodes.load_classderef else Opcodes.load_deref)
name_opcode op_deref store b = some Opcodes.store_deref
name_opcode op_deref aug_store b = some Opcodes.store_deref
name_opcode op_deref del b = some Opcodes.delete_deref
name_opcode op_fast load b = some Opcodes.load_fast
name_opcode op_fast aug_load b = some Opcodes.load_fast
name_opcode op_fast store b = some Opcodes.store_fast
name_opcode op_fast aug_store b = some Opcodes.store_fast
name_opcode op_fast del b = some Opcodes.delete_fast
name_opcode op_global load b = some Opcodes.load_global
name_opcode op_global aug_load b = some Opcodes.load_global
name_opcode op_global store b = some Opcodes.store_global
name_opcode op_global aug_store b = some Opcodes.store_global
name_opcode op_global del b = some Opcodes.delete_global
name_opcode op_name_op load b = some Opcodes.load_name
name_opcode op_name_op aug_load b = some Opcodes.load_name
name_opcode op_name_op store b = some Opcodes.store_name
name_opcode op_name_op aug_store b = some Opcodes.store_name
name_opcode op_name_op del b = some Opcodes.delete_name

-- `c.Index(mangled, dict)`; behind a free variable's index stand the cell variables.
unfoldable pub index_in : Table → String → Compiler → ℕ × Compiler
unfolding index_name
index_in name_table id c = let i = index_name id c.names in (i.0, record c { names = i.1 })
index_in varname_table id c = let i = index_name id c.varnames in (i.0, record c { varnames = i.1 })
index_in cellvar_table id c = let i = index_name id c.cellvars in (i.0, record c { cellvars = i.1 })
index_in freevar_table id c =
    let i = index_name id c.freevars in (u32 (i.0 + length c.cellvars), record c { freevars = i.1 })

unfoldable pub emit_name : Option OpCode → ℕ × Compiler → Option Compiler
unfolding emit_op_arg
emit_name none r = none
emit_name (some o) r = emit_op_arg o r.0 r.1

-- The names that no operation is compiled for.
abbrev pub reserved : String → Bool
reserved id = str_eq id "None" || str_eq id "True" || str_eq id "False"

module _ (scoping : Scoping) where
  -- `NameOp`
  unfoldable pub name_op : String → ExprContext → Code
  unfolding op_type table_of name_opcode index_in emit_name
  name_op id ctx c =
      let scope = scoping.get_scope id in
      let t = op_type scope scoping.block_type scoping.unoptimized in
      if reserved id
      then none
      else emit_name (name_opcode t ctx scoping.block_type) (index_in (table_of scope t) id c)
