-- ===== src/FString/Content.antt =====
-- fstring_rewrite.go: `parseFStringExpr` and `parseFStringContent`. The builders are accumulators.
pub mod Fuel
pub mod Placeholders
use taipan.Prelude.{
  ℕ, zero, suc, ◌+◌, ◌-◌, ◌<◌, ◌≤◌, ◌≡◌, Bool, true, false, ◌&&◌, ◌||◌, not, Option, none, some,
  List, [], ◌∷◌, ◌++◌, ◌==◌, leb, if◌then◌else◌, Bytes, length, arith, codes, refl,
}
use taipan.FString.Scan.{
  Outcome, value, failure, out_of_fuel, ◌>>=◌, syntax, is_quote, Split, scan_string_literal,
  opens_triple, scan_body,
}
use taipan.FString.Trim.{trim_space}

abbrev is_empty : Bytes → Bool
is_empty [] = true
is_empty (c ∷ cs) = false

-- What is done with the next byte, if there is one: `i+1 < len(content)`.
abbrev pub on_next {ℓ} : {A : Type ℓ} → Outcome A → (ℕ → Bytes → Outcome A) → Bytes → Outcome A
on_next last next [] = last
on_next last next (c ∷ rest) = next c rest

-- At `}` with depth 0.
finish_expr : Bytes → Bytes → Outcome Split
unfolding trim_space
finish_expr expr rest =
    if is_empty (trim_space expr)
    then failure (syntax "empty expression not allowed in f-string")
    else value (trim_space expr, rest)

-- An expression from behind its opening brace: its trimmed text, and the content behind its `}`.
unfoldable pub parse_f_string_expr : ℕ → ℕ → Bytes → Bytes → Outcome Split
unfolding finish_expr
parse_f_string_expr zero depth expr rest = out_of_fuel
parse_f_string_expr (suc fuel) depth expr [] = failure (syntax "unterminated f-string expression")
parse_f_string_expr (suc fuel) depth expr (ch ∷ rest) =
    let escaped =
      on_next (failure (syntax "unterminated escape in f-string expression"))
        (λ c rest'. parse_f_string_expr fuel depth (expr ++ (ch ∷ c ∷ [])) rest') rest in
    let quoted =
      scan_string_literal (ch ∷ rest) >>= λ s. parse_f_string_expr fuel depth (expr ++ s.0) s.1 in
    let opened = parse_f_string_expr fuel (depth + 1) (expr ++ (ch ∷ [])) rest in
    let closed = parse_f_string_expr fuel (depth - 1) (expr ++ (ch ∷ [])) rest in
    let next = parse_f_string_expr fuel depth (expr ++ (ch ∷ [])) rest in
    if ch == 92
    then escaped
    else if is_quote ch
    then quoted
    else if ch == b'{'
    then opened
    else if ch == b'}'
    then (if depth == 0 then finish_expr expr rest else closed)
    else if (ch == b':' || ch == b'!') && depth == 0
    then failure (syntax "f-string format specifiers are not supported yet")
    else next

-- `fStringPlaceholder`
abbrev pub placeholder : ℕ
placeholder = 0

-- The template and the expressions of a content. The loop's builder and slice are `template` and
-- `exprs`.
unfoldable pub parse_f_string_content :
    ℕ → Bytes → List Bytes → Bytes → Outcome (Bytes × List Bytes)
parse_f_string_content zero template exprs content = out_of_fuel
parse_f_string_content (suc fuel) template exprs [] = value (template, exprs)
parse_f_string_content (suc fuel) template exprs (ch ∷ rest) =
    let escaped =
      on_next (failure (syntax "unterminated escape in f-string"))
        (λ c rest'. parse_f_string_content fuel (template ++ (ch ∷ c ∷ [])) exprs rest') rest in
    let expression = parse_f_string_expr (suc (length rest)) 0 [] rest >>= λ s.
    parse_f_string_content fuel (template ++ (placeholder ∷ [])) (exprs ++ (s.0 ∷ [])) s.1 in
    let opened =
      on_next expression
        (λ c rest'.
          if c == b'{'
          then parse_f_string_content fuel (template ++ (b'{' ∷ [])) exprs rest'
          else expression)
        rest in
    let single : Outcome (Bytes × List Bytes) =
      failure (syntax "single '}' is not allowed in f-string") in
    let closed =
      on_next single
        (λ c rest'.
          if c == b'}'
          then parse_f_string_content fuel (template ++ (b'}' ∷ [])) exprs rest'
          else single)
        rest in
    let next = parse_f_string_content fuel (template ++ (ch ∷ [])) exprs rest in
    if ch == 92 then escaped else if ch == b'{' then opened else if ch == b'}' then closed else next

test_content :
    parse_f_string_content 20 [] [] (codes "a{ x }b{{c}}")
    ≡ value (b'a' ∷ 0 ∷ codes "b{c}", codes "x" ∷ [])
unfolding parse_f_string_content parse_f_string_expr trim_space scan_string_literal
test_content = refl
