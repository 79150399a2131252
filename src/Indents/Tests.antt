-- ===== src/Indents/Tests.antt =====
-- parser/lexer.go: the tokens of small files.
use taipan.Prelude.{
  ℕ, zero, suc, ◌+◌, ◌≡◌, refl, ◌∙◌, ap, arith, true, false, some, none, List, [], ◌∷◌, ◌++◌,
  replicate,
}
use taipan.Exceptions.{ok}
use taipan.Indents.{
  Token, indent, dedent, endmarker, other, lexer, new_lex, count_from, count_indent, find_indent,
  dequeue, check_indent, queue_dedents, Line, blank, line, line_start, lex_lines,
}
use taipan.Indents.Layout.{Statements, done, statement, bracketed, lay_out, lex_lines-lay_out}
use taipan.Indents.Stack.{Keeps, check_indent-Keeps}
use taipan.Indents.Balance.{depth_after, lex_lines-balance}

abbrev spaces : ℕ → List ℕ
spaces n = replicate n 32

count_spaces : (n m : ℕ) → count_from m (spaces n) ≡ ok (m + n)
unfolding count_from
count_spaces zero m = let e : m + 0 ≡ m = omega arith in rw e refl
count_spaces (suc n) m =
    let e : m + suc n ≡ m + 1 + n = omega arith in rw e (count_spaces n (m + 1))

count_columns : (n : ℕ) → count_indent (spaces n) ≡ ok n
unfolding count_indent
count_columns n = let e : 0 + n ≡ n = omega arith in count_spaces n 0 ∙ ap ok e

-- 1:
--    2:
--     3
-- 4
abbrev nested : Statements
nested = statement 1 2 (statement 2 0 (statement 3 0 done done) done) (statement 4 0 done done)

abbrev nested_tokens : List Token
nested_tokens =
    other 1 ∷ indent ∷ other 2 ∷ indent ∷ other 3 ∷ dedent ∷ dedent ∷ other 4 ∷ endmarker ∷ []

nested-bracketed : bracketed nested ++ (endmarker ∷ []) ≡ nested_tokens
unfolding bracketed
nested-bracketed = refl

lex_lines-lay_out_example :
    lex_lines (lay_out spaces 0 nested) new_lex ≡ some (bracketed nested ++ (endmarker ∷ []))
lex_lines-lay_out_example = lex_lines-lay_out spaces count_columns nested

-- A tab reaches to the column 8.
abbrev tabbed : List Line
tabbed =
    line [] false 1
    ∷ blank
    ∷ line (9 ∷ []) false 2
    ∷ line (spaces 3) true 3
    ∷ line (spaces 8) false 4
    ∷ []

abbrev tabbed_tokens : List Token
tabbed_tokens = other 1 ∷ indent ∷ other 2 ∷ other 3 ∷ other 4 ∷ dedent ∷ endmarker ∷ []

lex_lines-tabbed : lex_lines tabbed new_lex ≡ some tabbed_tokens
unfolding lex_lines line_start count_indent count_from check_indent find_indent dequeue
    queue_dedents
lex_lines-tabbed = refl

lex_lines-balance_example : depth_after 0 tabbed_tokens ≡ some 0
lex_lines-balance_example = lex_lines-balance tabbed lex_lines-tabbed

-- The column 2 is none of 0 and 4.
inconsistent :
    lex_lines (line [] false 1 ∷ line (spaces 4) false 2 ∷ line (spaces 2) false 3 ∷ []) new_lex
    ≡ none
unfolding lex_lines line_start count_indent count_from check_indent find_indent dequeue
    queue_dedents
inconsistent = refl

check_indent-Keeps_example :
    Keeps (8 ∷ 4 ∷ 0 ∷ []) (check_indent false 0 (lexer (8 ∷ 4 ∷ 0 ∷ []) []))
check_indent-Keeps_example =
    check_indent-Keeps false 0 (8 ∷ 4 ∷ 0 ∷ []) (omega arith, (omega arith, refl))
