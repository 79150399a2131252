-- ===== src/Vm/Arguments/Tests.antt =====
-- vm/eval.go: calls of `def f(a, b, c=7, *more, d)`.
use taipan.Prelude.{◌≡◌, refl, true, false, none, some, List, [], ◌∷◌, length, get_or, arith}
use taipan.Vm.State.{Object, value}
use taipan.Exceptions.{ok}
use taipan.Vm.Arguments.{
  Code, Locals, Keywords, total_args, bind_arguments, bind_parameter, bind_other, find_name,
}
use taipan.Vm.Arguments.Complete.{IsBound}
use taipan.Vm.Arguments.Calls.{bind_arguments-IsBound, bind_arguments-positional}
use taipan.Vm.Arguments.Named.{bind_arguments-keyword}

abbrev f_code : Code
f_code = record {
  argcount = 3;
  kwonlyargcount = 1;
  names = "a" ∷ "b" ∷ "c" ∷ "d" ∷ [];
  varargs = true;
  varkeywords = false;
}

-- f(1, d=9, b=2)
abbrev named : Keywords
named = ("d", value 9) ∷ ("b", value 2) ∷ []

abbrev f_locals : Locals
f_locals = record {
  params = some (value 1) ∷ some (value 2) ∷ some (value 7) ∷ some (value 9) ∷ [];
  rest = some [];
  keywords = none;
}

f_binds : bind_arguments f_code (value 1 ∷ []) named (value 7 ∷ []) [] ≡ ok f_locals
unfolding bind_arguments find_name bind_parameter bind_other
f_binds = refl

bind_arguments-IsBound_example :
    (length f_locals.params ≡ total_args f_code) × IsBound f_locals.params 3
bind_arguments-IsBound_example =
    bind_arguments-IsBound f_code (value 1 ∷ []) named (value 7 ∷ []) [] f_locals 3 f_binds
      (omega arith)

bind_arguments-positional_example : get_or f_locals.params 0 none ≡ some (value 1)
bind_arguments-positional_example =
    bind_arguments-positional f_code (value 1 ∷ []) named (value 7 ∷ []) [] f_locals 0 (value 1)
      f_binds (omega arith) refl

bind_arguments-keyword_example : get_or f_locals.params 1 none ≡ some (value 2)
unfolding find_name
bind_arguments-keyword_example =
    bind_arguments-keyword f_code (value 1 ∷ []) (("d", value 9) ∷ []) [] "b" (value 2)
      (value 7 ∷ []) [] f_locals 1 f_binds refl (omega arith)

-- f(1, 2, 3, 4, 5, d=9)
abbrev five : List Object
five = value 1 ∷ value 2 ∷ value 3 ∷ value 4 ∷ value 5 ∷ []

abbrev five_locals : Locals
five_locals = record {
  params = some (value 1) ∷ some (value 2) ∷ some (value 3) ∷ some (value 9) ∷ [];
  rest = some (value 4 ∷ value 5 ∷ []);
  keywords = none;
}

five_binds : bind_arguments f_code five (("d", value 9) ∷ []) (value 7 ∷ []) [] ≡ ok five_locals
unfolding bind_arguments find_name bind_parameter bind_other
five_binds = refl
