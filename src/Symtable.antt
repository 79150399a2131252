-- ===== src/Symtable.antt =====
-- symtable/symtable.go: the second pass over the symbol tables, which decides the scope of each
-- name. Go's maps are lists here: a StringSet has no duplicates, and Symbols and Scopes have one
-- entry for each name, in any order. The raised syntax errors are what NewSymTable recovers.
pub mod Analyze
pub mod Sets
pub mod Kept
pub mod Closed
pub mod Captured
pub mod Settled
pub mod Cells
mod Tests
use mathlib.Core.Option
use taipan.Prelude.{
  Bool, true, false, ◌&&◌, ◌||◌, not, Option, none, some, List, [], ◌∷◌, String, str_eq,
  if◌then◌else◌,
}
use taipan.Exceptions.{Result, ok, err, ◌>>=◌, Exception, exception, syntax_error}

pub data Scope : Type 0 where
  scope_invalid scope_local scope_global_explicit scope_global_implicit : Scope
  scope_free scope_cell : Scope

pub data BlockType : Type 0 where
  function_block class_block module_block : BlockType

-- The bits of `DefUseFlags`.
pub record DefUseFlags : Type 0 where
  pub def_global : Bool
  pub def_local : Bool
  pub def_param : Bool
  pub def_nonlocal : Bool
  pub def_use : Bool
  pub def_free : Bool
  pub def_free_class : Bool
  pub def_import : Bool

abbrev pub def_bound : DefUseFlags → Bool
def_bound f = f.def_local || (f.def_param || f.def_import)

-- The positions, which only the error messages read, are left out.
pub record Symbol : Type 0 where
  pub scope : Scope
  pub flags : DefUseFlags

abbrev pub StringSet : Type 0
StringSet = List String

abbrev pub Scopes : Type 0
Scopes = List (String × Scope)

abbrev pub Symbols : Type 0
Symbols = List (String × Symbol)

unfoldable pub contains : StringSet → String → Bool
contains [] k = false
contains (x ∷ s) k = str_eq x k || contains s k

unfoldable pub add : StringSet → String → StringSet
unfolding contains
add s k = if contains s k then s else k ∷ s

unfoldable pub update : StringSet → StringSet → StringSet
unfolding add
update s [] = s
update s (k ∷ t) = update (add s k) t

unfoldable pub discard : StringSet → String → StringSet
discard [] k = []
discard (x ∷ s) k = if str_eq x k then discard s k else x ∷ discard s k

-- The elements of a set that can be nil.
abbrev pub elements : Option StringSet → StringSet
elements none = []
elements (some s) = s

-- A name that is missing has the zero scope.
unfoldable pub scope_of : Scopes → String → Scope
scope_of [] k = scope_invalid
scope_of ((j, c) ∷ scopes) k = if str_eq j k then c else scope_of scopes k

-- What `AnalyzeName` changes: its maps, and the Free flag of the table.
pub record Names : Type 0 where
  pub scopes : Scopes
  pub bound : Option StringSet
  pub local : StringSet
  pub free : StringSet
  pub global : StringSet
  pub has_free : Bool

abbrev refuse : String → Result Names
refuse m = err (exception syntax_error m)

unfoldable pub as_global : String → Names → Names
unfolding add discard
as_global k n = record n {
  scopes = (k, scope_global_explicit) ∷ n.scopes;
  global = add n.global k;
  bound = Option.map (λ b. discard b k) n.bound;
}

unfoldable pub as_free : String → Names → Names
unfolding add
as_free k n = record n { scopes = (k, scope_free) ∷ n.scopes; free = add n.free k; has_free = true }

unfoldable pub as_local : String → Names → Names
unfolding add discard
as_local k n = record n {
  scopes = (k, scope_local) ∷ n.scopes;
  local = add n.local k;
  global = discard n.global k;
}

unfoldable pub as_implicit : Bool → String → Names → Names
as_implicit nested k n = record n {
  scopes = (k, scope_global_implicit) ∷ n.scopes;
  has_free = n.has_free || nested;
}

unfoldable pub analyze_global : String → DefUseFlags → Names → Result Names
unfolding as_global
analyze_global k f n =
    if f.def_param
    then refuse "name '%s' is parameter and global"
    else if f.def_nonlocal
    then refuse "name '%s' is nonlocal and global"
    else ok (as_global k n)

unfoldable pub analyze_nonlocal : String → DefUseFlags → Option StringSet → Names → Result Names
unfolding as_free contains
analyze_nonlocal k f none n =
    if f.def_param
    then refuse "name '%s' is parameter and nonlocal"
    else refuse "nonlocal declaration not allowed at module level"
analyze_nonlocal k f (some b) n =
    if f.def_param
    then refuse "name '%s' is parameter and nonlocal"
    else if contains b k
    then ok (as_free k n)
    else refuse "no binding for nonlocal '%s' found"

-- `AnalyzeName`, with the table's Nested flag.
unfoldable pub analyze_name : Bool → String → Symbol → Names → Result Names
unfolding as_free as_local as_implicit contains analyze_global analyze_nonlocal
analyze_name nested k s n =
    if s.flags.def_global
    then analyze_global k s.flags n
    else if s.flags.def_nonlocal
    then analyze_nonlocal k s.flags n.bound n
    else ok (
        if def_bound s.flags
        then as_local k n
        else if contains (elements n.bound) k
        then as_free k n
        else as_implicit (nested && not (contains n.global k)) k n)
