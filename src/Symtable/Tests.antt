-- ===== src/Symtable/Tests.antt =====
-- symtable/symtable.go: the tables of
--   def f():
--     x = 1
--     def g():
--       return x
use taipan.Prelude.{◌≡◌, refl, Bool, true, false, some, [], ◌∷◌}
use taipan.Exceptions.{ok}
use taipan.Symtable.{
  Scope, scope_invalid, scope_local, scope_free, scope_cell, function_block, module_block,
  DefUseFlags, Symbol, Names, contains, add, update, discard, scope_of, as_free, as_local,
  as_implicit, analyze_name,
}
use taipan.Symtable.Analyze.{
  Block, SymTable, table, no_child, child, analyze, analyze_children, start, analyze_block,
  analyze_names, new_bound, new_global, resolve_cells, close_block, analyze_cells, set_scopes,
  record_free, record_all_free, update_symbols,
}
use taipan.Symtable.Captured.{symbol_scope, has_symbol}
use taipan.Symtable.Settled.{IsDistinct}
use taipan.Symtable.Cells.{close_block-captures, is_captured, symbols_of}
use taipan.Symtable.Closed.{analyze_closed}

abbrev flags : Bool → Bool → DefUseFlags
flags local used = record {
  def_global = false;
  def_local = local;
  def_param = false;
  def_nonlocal = false;
  def_use = used;
  def_free = false;
  def_free_class = false;
  def_import = false;
}

abbrev assigned : Scope → Symbol
assigned c = record { scope = c; flags = flags true false }

abbrev read : Scope → Symbol
read c = record { scope = c; flags = flags false true }

abbrev g_table : Scope → Bool → SymTable
g_table c free =
    table
      (record {
        type = function_block;
        nested = true;
        symbols = ("x", read c) ∷ [];
        free = free;
        child_free = false;
        needs_class_closure = false;
      })
      no_child

abbrev f_table : Scope → Scope → SymTable → Bool → SymTable
f_table x g below child_free =
    table
      (record {
        type = function_block;
        nested = false;
        symbols = ("x", assigned x) ∷ ("g", assigned g) ∷ [];
        free = false;
        child_free = child_free;
        needs_class_closure = false;
      })
      (child below no_child)

abbrev module_table : Scope → SymTable → Bool → SymTable
module_table f below child_free =
    table
      (record {
        type = module_block;
        nested = false;
        symbols = ("f", assigned f) ∷ [];
        free = false;
        child_free = child_free;
        needs_class_closure = false;
      })
      (child below no_child)

abbrev parsed : SymTable
parsed =
    module_table scope_invalid
      (f_table scope_invalid scope_invalid (g_table scope_invalid false) false) false

abbrev analyzed : SymTable
analyzed =
    module_table scope_local (f_table scope_cell scope_local (g_table scope_free true) true) true

x_is_a_cell : analyze parsed ≡ ok (analyzed, [])
unfolding analyze analyze_names analyze_name contains add update discard as_local as_free
    as_implicit new_bound new_global close_block resolve_cells analyze_cells update_symbols
    set_scopes record_all_free record_free scope_of
x_is_a_cell = refl

analyze_closed_example : contains [] "x" ≡ false
analyze_closed_example = analyze_closed parsed analyzed [] "x" x_is_a_cell

-- g alone, in f
g_free :
    analyze_block (g_table scope_invalid false) (some ("g" ∷ "x" ∷ [])) [] []
    ≡ ok (g_table scope_free true, "x" ∷ [])
unfolding analyze_block analyze_names analyze_name contains add update discard as_local as_free
    as_implicit new_bound new_global close_block resolve_cells analyze_cells update_symbols
    set_scopes record_all_free record_free scope_of
g_free = refl

abbrev f_block : Block
f_block = record {
  type = function_block;
  nested = false;
  symbols = ("x", assigned scope_invalid) ∷ ("g", assigned scope_invalid) ∷ [];
  free = false;
  child_free = false;
  needs_class_closure = false;
}

abbrev f_names : Names
f_names = record {
  scopes = ("g", scope_local) ∷ ("x", scope_local) ∷ [];
  bound = some [];
  local = "g" ∷ "x" ∷ [];
  free = [];
  global = [];
  has_free = false;
}

f_analyzed : analyze_names false f_block.symbols (start f_block (some []) [] []) ≡ ok f_names
unfolding analyze_names analyze_name contains add discard as_local
f_analyzed = refl

g_analyzed :
    analyze_children
      (child (g_table scope_invalid false) no_child)
      (new_bound function_block (some []) f_names)
      (new_global function_block [] f_names)
      []
    ≡ ok (child (g_table scope_free true) no_child, "x" ∷ [], true)
unfolding analyze_children analyze_names analyze_name contains add update discard as_local as_free
    as_implicit new_bound new_global close_block resolve_cells analyze_cells update_symbols
    set_scopes record_all_free record_free scope_of
g_analyzed = refl

f_block-IsDistinct : IsDistinct f_block.symbols
unfolding has_symbol
f_block-IsDistinct = (refl, (refl, tt))

close_block-captures_example :
    is_captured (
      symbol_scope
        (symbols_of
          (close_block f_block f_names
            ("x" ∷ [])
            true
            (child (g_table scope_free true) no_child)).0)
        "x")
    ≡ true
unfolding contains
close_block-captures_example =
    close_block-captures f_block (child (g_table scope_invalid false) no_child)
      (child (g_table scope_free true) no_child) [] [] [] f_names ("x" ∷ []) true "x" refl
      f_block-IsDistinct f_analyzed g_analyzed refl
