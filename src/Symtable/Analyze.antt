-- ===== src/Symtable/Analyze.antt =====
-- symtable/symtable.go: `AnalyzeCells`, `Symbols.Update` and the recursion of `AnalyzeBlock` over the
-- tables. The children of a table are a data type of their own.
use taipan.Prelude.{
  Bool, true, false, ◌&&◌, ◌||◌, Option, none, some, [], ◌∷◌, String, str_eq, if◌then◌else◌,
}
use taipan.Exceptions.{Result, ok, ◌>>=◌}
use taipan.Symtable.{
  Scope, scope_local, scope_free, scope_cell, BlockType, function_block, class_block, module_block,
  DefUseFlags, def_bound, Symbol, StringSet, Scopes, Symbols, contains, add, update, discard,
  elements, scope_of, Names, analyze_name,
}

abbrev pub is_local : Scope → Bool
is_local scope_local = true
is_local _ = false

unfoldable pub analyze_cells : Scopes → StringSet → Scopes × StringSet
unfolding contains discard
analyze_cells [] free = ([], free)
analyze_cells ((k, c) ∷ scopes) free =
    let cell = analyze_cells scopes (discard free k) in
    let same = analyze_cells scopes free in
    if is_local c && contains free k
    then ((k, scope_cell) ∷ cell.0, cell.1)
    else ((k, c) ∷ same.0, same.1)

-- The first loop of `Update`.
unfoldable pub set_scopes : Scopes → Symbols → Symbols
unfolding scope_of
set_scopes scopes [] = []
set_scopes scopes ((k, s) ∷ symbols) =
    (k, record s { scope = scope_of scopes k }) ∷ set_scopes scopes symbols

abbrev no_flags : DefUseFlags
no_flags = record {
  def_global = false;
  def_local = false;
  def_param = false;
  def_nonlocal = false;
  def_use = false;
  def_free = false;
  def_free_class = false;
  def_import = false;
}

abbrev pub mark_class : Bool → Symbol → Symbol
mark_class class_flag s =
    if class_flag && (def_bound s.flags || s.flags.def_global)
    then record s { flags = record s.flags { def_free_class = true } }
    else s

-- A round of the second loop of `Update`, for a free name of the children.
unfoldable pub record_free : StringSet → Bool → String → Symbols → Symbols
unfolding contains
record_free bound class_flag k [] =
    if contains bound k then (k, record { scope = scope_free; flags = no_flags }) ∷ [] else []
record_free bound class_flag k ((j, s) ∷ symbols) =
    let rest = record_free bound class_flag k symbols in
    if str_eq j k then (j, mark_class class_flag s) ∷ symbols else (j, s) ∷ rest

unfoldable pub record_all_free : StringSet → Bool → StringSet → Symbols → Symbols
unfolding record_free
record_all_free bound class_flag [] symbols = symbols
record_all_free bound class_flag (k ∷ free) symbols =
    record_all_free bound class_flag free (record_free bound class_flag k symbols)

unfoldable pub update_symbols : Symbols → Scopes → StringSet → StringSet → Bool → Symbols
unfolding set_scopes record_all_free
update_symbols symbols scopes bound free class_flag =
    record_all_free bound class_flag free (set_scopes scopes symbols)

-- The fields of `SymTable` that the analysis reads and writes, but the children.
pub record Block : Type 0 where
  pub type : BlockType
  pub nested : Bool
  pub symbols : Symbols
  pub free : Bool
  pub child_free : Bool
  pub needs_class_closure : Bool

mutual
  pub data SymTable : Type 0 where
    table : Block → Children → SymTable

  pub data Children : Type 0 where
    no_child : Children
    child : SymTable → Children → Children

abbrev pub frees : SymTable → Bool
frees (table b cs) = b.free || b.child_free

unfoldable pub analyze_names : Bool → Symbols → Names → Result Names
analyze_names nested [] n = ok n
analyze_names nested ((k, s) ∷ symbols) n =
    analyze_name nested k s n >>= analyze_names nested symbols

-- The names that the children see; those of a class are taken before its own are analyzed.
unfoldable pub new_bound : BlockType → Option StringSet → Names → StringSet
unfolding add update
new_bound function_block bound n = update (update [] n.local) (elements n.bound)
new_bound class_block bound n = add (update [] (elements bound)) "__class__"
new_bound module_block bound n = update [] (elements n.bound)

unfoldable pub new_global : BlockType → StringSet → Names → StringSet
unfolding update
new_global class_block global n = update [] global
new_global function_block global n = update [] n.global
new_global module_block global n = update [] n.global

-- The scopes and the free names of the children, behind the switch on the block's type.
unfoldable pub resolve_cells : BlockType → Scopes → StringSet → Scopes × StringSet
unfolding analyze_cells discard
resolve_cells function_block scopes free = analyze_cells scopes free
resolve_cells class_block scopes free = (scopes, discard free "__class__")
resolve_cells module_block scopes free = (scopes, free)

abbrev is_class : BlockType → Bool
is_class class_block = true
is_class _ = false

-- What `AnalyzeBlock` does behind its children, whose free names are `all_free`.
unfoldable pub close_block : Block → Names → StringSet → Bool → Children → SymTable × StringSet
unfolding update contains resolve_cells update_symbols
close_block b n all_free child_free cs =
    let new_free = update [] all_free in
    let r = resolve_cells b.type n.scopes new_free in
    (
      table
          (record b {
            symbols = update_symbols b.symbols r.0 (elements n.bound) r.1 (is_class b.type);
            free = n.has_free;
            child_free = b.child_free || child_free;
            needs_class_closure =
                b.needs_class_closure || (is_class b.type && contains new_free "__class__");
          })
          cs,
      update n.free r.1,
    )

abbrev pub start : Block → Option StringSet → StringSet → StringSet → Names
start b bound free global = record {
  scopes = [];
  bound = bound;
  local = [];
  free = free;
  global = global;
  has_free = b.free;
}

-- `AnalyzeBlock` answers the free names. `AnalyzeChildBlock` gives each child copies of the sets;
-- the copy of `newfree` is empty, since `newfree` is filled behind the loop.
unfoldable mutual
  unfolding analyze_names new_bound new_global close_block update

  pub analyze_block :
      SymTable → Option StringSet → StringSet → StringSet → Result (SymTable × StringSet)
  analyze_block (table b cs) bound free global = do
    n ← analyze_names b.nested b.symbols (start b bound free global)
    r ← analyze_children cs (new_bound b.type bound n) (new_global b.type global n) []
    ok (close_block b n r.1 r.2 r.0)

  pub analyze_children :
      Children → StringSet → StringSet → StringSet → Result (Children × StringSet × Bool)
  analyze_children no_child bound global all_free = ok (no_child, all_free, false)
  analyze_children (child c cs) bound global all_free = do
    r ← analyze_block c (some (update [] bound)) [] (update [] global)
    s ← analyze_children cs bound global (update all_free r.1)
    ok (child r.0 s.0, s.1, frees r.0 || s.2)

unfoldable pub analyze : SymTable → Result (SymTable × StringSet)
unfolding analyze_block
analyze st = analyze_block st none [] []
