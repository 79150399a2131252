-- ===== src/Vm/Names.antt =====
-- vm/eval.go and py/frame.go: the opcodes that load a constant, a name or an attribute. Go's maps
-- are functions, and a local variable that is nil is `none`.
use taipan.Prelude.{Option, none, some, List, [], ◌∷◌, String, get_elem?}
use taipan.Prelude.Int.{ℤ, pos, negsuc}
use taipan.Exceptions.{Result, ok, err, exception, name_error}
use taipan.Vm.State.{Object, Vm, Effect, done, error, panic, push}
use taipan.Vm.Operators.{Operations, set_top}

-- The frame's parts that names are looked up in, and its code's tables.
pub record FrameNames : Type 0 where
  pub locals : String → Option Object
  pub globals : String → Option Object
  pub builtins : String → Option Object
  pub local_vars : List (Option Object)
  pub consts : List Object
  pub names : List String

-- The first map that has the key.
abbrev first_of : Option Object → Option Object → Option Object
first_of (some x) rest = some x
first_of none rest = rest

-- `xs[i]`, which panics out of range.
abbrev at_index {ℓ} : {A : Type ℓ} → List A → ℤ → Option A
at_index xs (pos n) = get_elem? xs n
at_index xs (negsuc n) = none

abbrev pub found : Option Object → Result Object
found (some x) = ok x
found none = err (exception name_error "name '%s' is not defined")

unfoldable pub push_result : Vm → Result Object → Effect
push_result vm (ok x) = done (push x vm)
push_result vm (err e) = error e vm

-- What an opcode does with its entry of a table.
unfoldable pub or_out_of_range {ℓ} : {A : Type ℓ} → Option A → (A → Effect) → Effect
or_out_of_range none f = panic
or_out_of_range (some x) f = f x

module _ (frame : FrameNames) where
  -- `LookupGlobal`
  unfoldable pub lookup_global : String → Option Object
  lookup_global id = first_of (frame.globals id) (frame.builtins id)

  -- `Lookup`
  unfoldable pub lookup : String → Option Object
  unfolding lookup_global
  lookup id = first_of (frame.locals id) (lookup_global id)

  unfoldable pub do_load_const : ℤ → Vm → Effect
  unfolding or_out_of_range
  do_load_const i vm = or_out_of_range (at_index frame.consts i) (λ x. done (push x vm))

  unfoldable pub do_load_name : ℤ → Vm → Effect
  unfolding or_out_of_range lookup push_result
  do_load_name i vm =
      or_out_of_range (at_index frame.names i) (λ id. push_result vm (found (lookup id)))

  unfoldable pub do_load_global : ℤ → Vm → Effect
  unfolding or_out_of_range lookup_global push_result
  do_load_global i vm =
      or_out_of_range (at_index frame.names i) (λ id. push_result vm (found (lookup_global id)))

  unfoldable pub do_load_fast : ℤ → Vm → Effect
  unfolding or_out_of_range push_result
  do_load_fast i vm = or_out_of_range (at_index frame.local_vars i) (λ x. push_result vm (found x))

  -- TOS = getattr(TOS, name)
  unfoldable pub attribute_of : Operations → String → List Object → Vm → Effect
  attribute_of ops id [] vm = panic
  attribute_of ops id (a ∷ s) vm = set_top s vm (ops.get_attr a id)

  unfoldable pub do_load_attr : Operations → ℤ → Vm → Effect
  unfolding or_out_of_range attribute_of
  do_load_attr ops i vm =
      or_out_of_range (at_index frame.names i) (λ id. attribute_of ops id vm.stack vm)
