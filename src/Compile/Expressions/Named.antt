-- ===== src/Compile/Expressions/Named.antt =====
-- compile/compile.go and vm/eval.go: the instructions whose argument is an index into a table of the
-- code: constants, attributes and variables.
use taipan.Prelude.{
  ℕ, zero, suc, ◌<◌, ◌≤◌, ◌≡◌, refl, sym, ap, ◌∙◌, subst, Bool, true, false, Option, none, some,
  List, [], ◌∷◌, length, get_elem?, arith, Bool-cases, inl, inr, String,
}
use taipan.Exceptions.{ok}
use taipan.Ast.{load}
use taipan.Opcodes
use taipan.Opcodes.{OpCode, byte, has_arg, extended_arg}
use taipan.Symtable.{
  Scope, scope_invalid, scope_local, scope_global_explicit, scope_global_implicit, scope_free,
  scope_cell, BlockType, function_block, class_block, module_block,
}
use taipan.Vm.State.{Object}
use taipan.Vm.Names.{found}
use taipan.Vm.Dispatch.{Machine}
use taipan.Compile.Instructions.{op_arg}
use taipan.Compile.Emission.{
  Compiler, Scoping, emit_instruction, emit_op_arg, const, load_const, index_name, op_name, op_type,
  op_fast, op_global, op_name_op, table_of, name_opcode, index_in, emit_name, name_op, reserved,
  name_table, varname_table,
}
use taipan.Compile.Expressions.Meaning.{slot, joined, value_of, variable}
use taipan.Compile.Instructions.Kept.{erase}
use taipan.Compile.Expressions.Flow.{Program, Outcome, gives, Reaches}
use taipan.Compile.Expressions.Emitted.{TakesArg, Continues, Reaches-op_arg}
use taipan.Compile.Expressions.Operated.{outcome_of, one}
use taipan.Compile.Expressions.Branched.{
  Continues-load_const, Continues-load_name, Continues-load_global, Continues-load_fast,
  Continues-load_attr,
}
use taipan.Compile.Expressions.Tables.{
  const-Starts, index_name-Starts, find_id-index_name, get_elem?-lt,
}
use taipan.Compile.Expressions.Pieces.{Fits, here, Done, Does, emitted, here-after, after}

-- The tables are short, and each name of a local variable has its slot.
pub record Linked (m : Machine) (p : Program) : Type 0 where
  pub few_consts : length m.frame.consts < 0x8000_0000
  pub few_names : length m.frame.names < 0x8000_0000
  pub few_varnames : length p.varnames < 0x8000_0000
  pub slots : length p.varnames ≤ length m.frame.local_vars

-- A scope whose variables are not in cells.
abbrev pub captured : Scope → Bool
captured scope_free = true
captured scope_cell = true
captured _ = false

get_elem?-within :
    {A : Type 0} (xs : List A) (i : ℕ) → i < length xs → (x : A) × (get_elem? xs i ≡ some x)
get_elem?-within [] i h = elim h [ ]
get_elem?-within (x ∷ xs) zero h = (x, refl)
get_elem?-within (x ∷ xs) (suc i) h = get_elem?-within xs i (omega arith)

slot_lem :
    (o : Option ℕ) (vars : List (Option Object)) (i : ℕ) {x : Option Object}
    → o ≡ some i
    → get_elem? vars i ≡ some x
    → slot o vars ≡ x
unfolding slot
slot_lem none vars i e f = cc
slot_lem (some j) vars i e f = let same : j ≡ i = cc in ap joined (ap (get_elem? vars) same ∙ f)

module _ (m : Machine) (p : Program) (linked : Linked m p) where
  -- Behind a table that has grown by at most one element, an instruction with an index into it.
  Done-index_name :
      (c c₁ : Compiler) (o : OpCode) (a : ℕ) (f : List Object → Outcome)
      → TakesArg m p o
      → here m p c₁ ≡ here m p c
      → (Fits m p c₁
          → Fits m p c
            × (a < 0x8000_0000)
            × ((k : ℕ) (s : List Object) → Continues m p k s (f s) o a))
      → Done m p c (emit_op_arg o a c₁) f
  unfolding emit_op_arg emit_instruction erase
  Done-index_name c c₁ o a f takes same h =
      let x = op_arg (record { n = 0; p = 0; lineno = c₁.lineno }) o a in
      rw takes.0 λ fits.
        let r = emitted m p c₁ x fits in
        let facts = h r.0 in
        (
          facts.0,
          λ s.
              subst (λ k. Reaches m p k s (f s) (here m p (after c₁ x))) same
                (subst (Reaches m p (here m p c₁) s (f s)) (here-after m p c₁ x) (
                  Reaches-op_arg m p (here m p c₁) s (f s) o a r.1 takes facts.1
                    (facts.2 (here m p c₁) s))),
        )

  module _ (scoping : Scoping)
      (distinct : (a b : Object)
        → scoping.same_type a b ≡ true
        → scoping.eq a b ≡ ok true
        → a ≡ b) where
    pub Does-load_const : (x : Object) → Does m p (load_const scoping x) (λ s. gives (x ∷ s))
    unfolding load_const has_arg byte
    Does-load_const x c =
        let i = const scoping x c.consts in
        Done-index_name c (record c { consts = i.1 }) Opcodes.load_const i.0 (λ s. gives (x ∷ s))
          (refl, refl) refl
          λ fits.
            let r =
              const-Starts scoping distinct x c.consts m.frame.consts linked.few_consts fits.1 in
            ((fits.0, r.0, fits.2, fits.3), r.2, λ k s. Continues-load_const m p k i.0 s x r.1)

  pub Does-load_attr :
      (id : String)
      → Does m p (op_name Opcodes.load_attr id) (λ s. one (λ a. m.ops.get_attr a id) s)
  unfolding op_name has_arg byte
  Does-load_attr id c =
      let i = index_name id c.names in
      Done-index_name c (record c { names = i.1 }) Opcodes.load_attr i.0 _ (refl, refl) refl
        λ fits.
          let r = index_name-Starts id c.names m.frame.names linked.few_names fits.2 in
          ((fits.0, fits.1, r.0, fits.3), r.2, λ k s. Continues-load_attr m p k i.0 s id r.1)

  pushes_name :
      (c : Compiler) (id : String)
      → Done m p c
          (emit_name (some Opcodes.load_name) (index_in name_table id c))
          (λ s. outcome_of (found (value_of m.frame p.varnames op_name_op id)) s)
  unfolding emit_name index_in has_arg byte value_of
  pushes_name c id =
      let i = index_name id c.names in
      Done-index_name c (record c { names = i.1 }) Opcodes.load_name i.0 _ (refl, refl) refl
        λ fits.
          let r = index_name-Starts id c.names m.frame.names linked.few_names fits.2 in
          ((fits.0, fits.1, r.0, fits.3), r.2, λ k s. Continues-load_name m p k i.0 s id r.1)

  pushes_global :
      (c : Compiler) (id : String)
      → Done m p c
          (emit_name (some Opcodes.load_global) (index_in name_table id c))
          (λ s. outcome_of (found (value_of m.frame p.varnames op_global id)) s)
  unfolding emit_name index_in has_arg byte value_of
  pushes_global c id =
      let i = index_name id c.names in
      Done-index_name c (record c { names = i.1 }) Opcodes.load_global i.0 _ (refl, refl) refl
        λ fits.
          let r = index_name-Starts id c.names m.frame.names linked.few_names fits.2 in
          ((fits.0, fits.1, r.0, fits.3), r.2, λ k s. Continues-load_global m p k i.0 s id r.1)

  pushes_fast :
      (c : Compiler) (id : String)
      → Done m p c
          (emit_name (some Opcodes.load_fast) (index_in varname_table id c))
          (λ s. outcome_of (found (value_of m.frame p.varnames op_fast id)) s)
  unfolding emit_name index_in has_arg byte value_of
  pushes_fast c id =
      let i = index_name id c.varnames in
      Done-index_name c (record c { varnames = i.1 }) Opcodes.load_fast i.0 _ (refl, refl) refl
        λ fits.
          let r = index_name-Starts id c.varnames p.varnames linked.few_varnames fits.3 in
          (
            (fits.0, fits.1, fits.2, r.0),
            r.2,
            λ k s.
                let within = get_elem?-lt p.varnames i.0 r.1 in
                let x =
                  get_elem?-within m.frame.local_vars i.0 (omega (arith, within, linked.slots)) in
                let there =
                  find_id-index_name id c.varnames p.varnames linked.few_varnames fits.3 in
                subst (λ v. Continues m p k s (outcome_of (found v) s) Opcodes.load_fast i.0)
                  (sym (slot_lem _ _ i.0 there x.1)) (Continues-load_fast m p k i.0 s x.0 x.1),
          )

  -- A variable that is in no cell.
  pushes :
      (c : Compiler) (id : String) (sc : Scope) (t : BlockType) (u : Bool)
      → captured sc ≡ false
      → Done m p c
          (emit_name
            (name_opcode (op_type sc t u) load t)
            (index_in (table_of sc (op_type sc t u)) id c))
          (λ s. outcome_of (found (value_of m.frame p.varnames (op_type sc t u) id)) s)
  unfolding name_opcode op_type table_of
  pushes c id scope_free t u h = cc
  pushes c id scope_cell t u h = cc
  pushes c id scope_local function_block u h = pushes_fast c id
  pushes c id scope_local class_block u h = pushes_name c id
  pushes c id scope_local module_block u h = pushes_name c id
  pushes c id scope_global_implicit function_block true h = pushes_name c id
  pushes c id scope_global_implicit function_block false h = pushes_global c id
  pushes c id scope_global_implicit class_block u h = pushes_name c id
  pushes c id scope_global_implicit module_block u h = pushes_name c id
  pushes c id scope_global_explicit t u h = pushes_global c id
  pushes c id scope_invalid t u h = pushes_name c id

  pub Does-name_op :
      (scoping : Scoping) (id : String)
      → captured (scoping.get_scope id) ≡ false
      → Does m p
          (name_op scoping id load)
          (λ s. outcome_of (variable m.frame p.varnames scoping id) s)
  unfolding name_op variable
  Does-name_op scoping id h c = elim (Bool-cases (reserved id)) [
    | inl refused ↦ rw refused tt
    | inr other ↦
        rw other (pushes c id (scoping.get_scope id) scoping.block_type scoping.unoptimized h)
  ]
