-- ===== src/FString/Tests.antt =====
-- fstring_rewrite.go at the inputs of taipan_test.go, and at those that show its limits.
use taipan.Prelude.{
  ◌≡◌, ◌≢◌, refl, codes, [], ◌∷◌, ◌++◌, Bytes, ℕ, List, Option, none, some, false, map,
}
use taipan.Prelude.Int.{ℤ}
use taipan.Exceptions.{ok}
use taipan.Escapes.{has_backslash, plain, decode_escape}
use taipan.FString.Scan.{value, out_of_fuel}
use taipan.FString.Content.{placeholder}
use taipan.FString.Rewrite.{rewrite_f_strings, format_string}
use taipan.FString.Rewrite.Loop.{rewrite_f_strings-ends}
use taipan.FString.Rewrite.Format.{str_mod, interpolate, has_verb, str_mod-format_string}

rewrites :
    (rewrite_f_strings (codes "x = f'a {b} {{c}} 5%'") ≡ value (codes "x = 'a %s {c} 5%%' % (b,)"))
    × (rewrite_f_strings (codes "f\"{a}-{b}\" # f'{x}'")
        ≡ value (codes "\"%s-%s\" % (a, b) # f'{x}'"))
    × (rewrite_f_strings (codes "g('f') + rf'{x}'") ≡ value (codes "g('f') + rf'{x}'"))
unfolding rewrite_f_strings
rewrites = (refl, refl, refl)

-- With no expression nothing undoes the doubled `%`.
doubled_percent : rewrite_f_strings (codes "f'100%'") ≡ value (codes "'100%%'")
unfolding rewrite_f_strings
doubled_percent = refl

rewrite_f_strings-ends_example : rewrite_f_strings (codes "f'{a' + b") ≢ out_of_fuel
rewrite_f_strings-ends_example = rewrite_f_strings-ends (codes "f'{a' + b")

abbrev template : Bytes
template = codes "5% of " ++ (placeholder ∷ codes "!")

-- A reading of no number.
abbrev no_number : List ℕ → Option ℤ
no_number ds = none

str_mod-format_string_example :
    (decode_escape no_number false (format_string template)
      ≡ some (ok (map plain (format_string template))))
    × (str_mod (format_string template) (codes "10" ∷ []) ≡ interpolate template (codes "10" ∷ []))
unfolding has_verb has_backslash
str_mod-format_string_example = str_mod-format_string no_number template (codes "10" ∷ []) refl refl
