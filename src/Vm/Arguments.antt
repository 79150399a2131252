-- ===== src/Vm/Arguments.antt =====
-- vm/eval.go: how `EvalCode` binds the arguments of a call. The local variables that it fills are
-- the parameters (`fastlocals[:total_args]`), the tuple behind them for `*args` and the dictionary
-- for `**kwargs`; a nil slot is `none`. The keyword arguments are a Go map, so their order is
-- arbitrary: they are a list.
-- The call count and the test for nil globals in front, and the cells behind, are left out.
pub mod Extends
pub mod Complete
pub mod Calls
pub mod Named
mod Tests
use taipan.Prelude.{
  ℕ, zero, suc, ◌+◌, ◌-◌, Bool, true, false, ◌&&◌, not, Option, none, some, List, [], ◌∷◌, ◌++◌,
  String, str_eq, length, take, drop, replicate, get_or, set, ltb, ◌==◌, if◌then◌else◌,
}
use taipan.Vm.State.{Object}
use taipan.Exceptions.{Result, ok, err, ◌>>=◌, Exception, exception, type_error}

-- The fields of `py.Code` that the binding reads; `names` are the first `total_args` variable names.
pub record Code : Type 0 where
  pub argcount : ℕ
  pub kwonlyargcount : ℕ
  pub names : List String
  pub varargs : Bool
  pub varkeywords : Bool

abbrev pub total_args : Code → ℕ
total_args co = co.argcount + co.kwonlyargcount

abbrev unexpected_keyword : Exception
unexpected_keyword = exception type_error "%s() got an unexpected keyword argument '%s'"

abbrev multiple_values : Exception
multiple_values = exception type_error "%s() got multiple values for argument '%s'"

abbrev pub too_many_positional : Exception
too_many_positional = exception type_error "%s() takes %s positional argument%s but %d%s %s given"

abbrev missing_arguments : Exception
missing_arguments = exception type_error "%s() missing %d required %s argument%s: %s"

-- The first place of a name: the search for `co.Varnames[j] == keyword`.
unfoldable pub find_name : String → List String → Option ℕ
find_name k [] = none
find_name k (x ∷ xs) =
    let rest : Option ℕ = elim (find_name k xs) [ none ↦ none | some j ↦ some (suc j) ] in
    if str_eq x k then some 0 else rest

abbrev pub Slots : Type 0
Slots = List (Option Object)

abbrev pub Keywords : Type 0
Keywords = List (String × Object)

pub record Locals : Type 0 where
  pub params : Slots
  pub rest : Option (List Object)
  pub keywords : Option Keywords

abbrev is_nil : Option Object → Bool
is_nil none = true
is_nil (some a) = false

-- `for i := 0; i < n; i++ { fastlocals[i] = args[i] }`
unfoldable pub place : List Object → Slots → Slots
place [] slots = slots
place (a ∷ given) [] = []
place (a ∷ given) (s ∷ slots) = some a ∷ place given slots

unfoldable pub first_locals : Code → List Object → Locals
unfolding place
first_locals co args = record {
  params = place (take co.argcount args) (replicate (total_args co) none);
  rest = if co.varargs then some (drop co.argcount args) else none;
  keywords = if co.varkeywords then some [] else none;
}

-- Object keyword that names a parameter, and one that does not.
unfoldable pub bind_parameter : ℕ → Object → Locals → Result Locals
bind_parameter j v l =
    if is_nil (get_or l.params j none)
    then ok (record l { params = set l.params j (some v) })
    else err multiple_values

unfoldable pub bind_other : String → Object → Option Keywords → Locals → Result Locals
bind_other k v none l = err unexpected_keyword
bind_other k v (some d) l = ok (record l { keywords = some ((k, v) ∷ d) })

unfoldable pub bind_keyword : Code → String → Object → Locals → Result Locals
unfolding bind_parameter bind_other
bind_keyword co k v l = elim (find_name k co.names) [
  | some j ↦ bind_parameter j v l
  | none ↦ bind_other k v l.keywords l
]

unfoldable pub bind_keywords : Code → Keywords → Locals → Result Locals
bind_keywords co [] l = ok l
bind_keywords co ((k, v) ∷ kws) l = bind_keyword co k v l >>= bind_keywords co kws

unfoldable pub count_nil : Slots → ℕ
count_nil [] = 0
count_nil (none ∷ slots) = suc (count_nil slots)
count_nil (some a ∷ slots) = count_nil slots

abbrev pub fill_slot : Slots → ℕ → Object → Slots
fill_slot slots i d = if is_nil (get_or slots i none) then set slots i (some d) else slots

-- The defaults go to the nil slots from `p` on.
unfoldable pub fill_from : ℕ → List Object → Slots → Slots
fill_from p [] slots = slots
fill_from p (d ∷ defs) slots = fill_from (p + 1) defs (fill_slot slots p d)

-- `len(args) < co.Argcount`: with `m` the number of parameters that have no default, those
-- from `len(args)` to `m` must be bound; the defaults start at the greater of `len(args)` and `m`.
unfoldable pub bind_defaults : Code → ℕ → List Object → Locals → Result Locals
unfolding fill_from count_nil
bind_defaults co given defs l =
    let m = co.argcount - length defs in
    let first = if ltb given m then m else given in
    let filled = fill_from first (drop (given + length defs - co.argcount) defs) l.params in
    if ltb given co.argcount
    then (if count_nil (take (m - given) (drop given l.params)) == 0
        then ok (record l { params = filled })
        else err missing_arguments)
    else ok l

-- `kwdefs[name]`; a nil dictionary has no keys.
unfoldable pub lookup_default : String → Keywords → Option Object
lookup_default k [] = none
lookup_default k ((j, v) ∷ d) = if str_eq j k then some v else lookup_default k d

abbrev or_default : Option Object → Option Object → Option Object
or_default none d = d
or_default (some a) d = some a

-- The keyword-only parameters, each with its name.
unfoldable pub fill_keyword_only : Keywords → List String → Slots → Slots
unfolding lookup_default
fill_keyword_only kwdefs [] slots = slots
fill_keyword_only kwdefs (k ∷ names) [] = []
fill_keyword_only kwdefs (k ∷ names) (s ∷ slots) =
    or_default s (lookup_default k kwdefs) ∷ fill_keyword_only kwdefs names slots

unfoldable pub bind_keyword_only : Code → Keywords → Locals → Result Locals
unfolding fill_keyword_only count_nil
bind_keyword_only co kwdefs l =
    let filled = fill_keyword_only kwdefs (drop co.argcount co.names) (drop co.argcount l.params) in
    if ltb 0 co.kwonlyargcount
    then (if count_nil filled == 0
        then ok (record l { params = take co.argcount l.params ++ filled })
        else err missing_arguments)
    else ok l

unfoldable pub check_positional : Code → ℕ → Locals → Result Locals
check_positional co given l =
    if ltb co.argcount given && not co.varargs then err too_many_positional else ok l

unfoldable pub bind_arguments :
    Code → List Object → Keywords → List Object → Keywords → Result Locals
unfolding first_locals bind_keywords bind_keyword check_positional bind_defaults bind_keyword_only
bind_arguments co args kws defs kwdefs = do
  l₁ ← bind_keywords co kws (first_locals co args)
  l₂ ← check_positional co (length args) l₁
  l₃ ← bind_defaults co (length args) defs l₂
  bind_keyword_only co kwdefs l₃
