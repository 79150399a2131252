-- ===== src/Indents.antt =====
-- parser/lexer.go: how Lex turns the indentation of lines into INDENT and DEDENT tokens. The other
-- tokens of a line do not touch the indentation, and stand here as one token with a number.
pub mod Dedents
pub mod Layout
pub mod Stack
pub mod Balance
mod Tests
use taipan.Prelude.{
  ℕ, zero, suc, ◌+◌, ◌-◌, ◌%◌, ltb, ◌==◌, Bool, true, false, Option, none, some, List, [], ◌∷◌,
  ◌++◌, length, drop, replicate, if◌then◌else◌,
}
use taipan.Exceptions.{Result, ok, err, ◌>>=◌, Exception, exception, indentation_error}

pub data Token : Type 0 where
  indent dedent endmarker : Token
  other : ℕ → Token

-- The top of `indent_stack` comes first.
pub record Lexer : Type 0 where
  pub indent_stack : List ℕ
  pub tokens : List Token

abbrev pub lexer : List ℕ → List Token → Lexer
lexer s q = record { indent_stack = s; tokens = q }

-- `NewLex` behind the token for the mode (FILE_INPUT, EVAL_INPUT or SINGLE_INPUT), which it queues
-- for the grammar and which Lex hands out first: that token is left out here.
abbrev pub new_lex : Lexer
new_lex = lexer (0 ∷ []) []

abbrev pub unexpected_indent : Exception
unexpected_indent = exception indentation_error "unexpected indent"

-- A panic with an exception is its error.
unfoldable pub count_from : ℕ → List ℕ → Result ℕ
count_from n [] = ok n
count_from n (c ∷ cs) =
    let space = count_from (n + 1) cs in
    let tab = count_from (n + (8 - n % 8)) cs in
    if c == 32 then space else if c == 9 then tab else err unexpected_indent

unfoldable pub count_indent : List ℕ → Result ℕ
unfolding count_from
count_indent cs = count_from 0 cs

abbrev pub queue : Token → Lexer → Lexer
queue t l = record l { tokens = l.tokens ++ (t ∷ []) }

-- What a state of Lex does: it goes on, or returns a token, or the end after an error, or panics.
pub data Answer : Type 0 where
  continue : Answer
  token : Token → Answer
  error : Answer
  panic : Answer

unfoldable pub dequeue : Lexer → Answer × Lexer
dequeue l = elim l.tokens [ [] ↦ (panic, l) | t ∷ ts ↦ (token t, record l { tokens = ts }) ]

-- The stack from the entry on that is the indentation, if there is one, and the queue, with a
-- DEDENT for each entry above it.
unfoldable pub find_indent : ℕ → List ℕ → List Token → Option (List ℕ) × List Token
find_indent n [] q = (none, q)
find_indent n (s ∷ ss) q =
    let deeper = find_indent n ss (q ++ (dedent ∷ [])) in
    if s == n then (some (s ∷ ss), q) else deeper

abbrev pub found_indent : Lexer → Option (List ℕ) × List Token → Answer × Lexer
found_indent l (none, q) = (error, record l { tokens = q })
found_indent l (some s, q) = dequeue (record l { indent_stack = s; tokens = q })

abbrev pub compare_top : ℕ → Lexer → List ℕ → Answer × Lexer
compare_top n l [] = (panic, l)
compare_top n l (s ∷ ss) =
    if n == s
    then (continue, l)
    else if ltb s n
    then (token indent, record l { indent_stack = n ∷ s ∷ ss })
    else found_indent l (find_indent n (s ∷ ss) l.tokens)

-- The state `checkIndent`, for the indentation `n`.
unfoldable pub check_indent : Bool → ℕ → Lexer → Answer × Lexer
unfolding find_indent dequeue
check_indent open_brackets n l =
    if open_brackets then (continue, l) else compare_top n l l.indent_stack

unfoldable pub queue_dedents : Lexer → Lexer
queue_dedents l = record l {
  tokens = l.tokens ++ replicate (length l.indent_stack - 1) dedent;
  indent_stack = drop (length l.indent_stack - 1) l.indent_stack;
}

-- A line with nothing but space and a comment, or one with its margin, whether brackets are open at
-- its start, and its tokens.
pub data Line : Type 0 where
  blank : Line
  line : List ℕ → Bool → ℕ → Line

-- The calls of Lex return the token of the state, then those in the queue.
abbrev pub returned : Answer × Lexer → Option (List Token × Lexer)
returned (continue, l) = some (l.tokens, record l { tokens = [] })
returned (token t, l) = some (t ∷ l.tokens, record l { tokens = [] })
returned (error, l) = none
returned (panic, l) = none

abbrev pub with_indent : Result ℕ → (ℕ → Answer × Lexer) → Option (List Token × Lexer)
with_indent (err e) f = none
with_indent (ok n) f = returned (f n)

unfoldable pub line_start : Line → Lexer → Option (List Token × Lexer)
unfolding count_indent check_indent
line_start blank l = some ([], l)
line_start (line margin open_brackets t) l =
    with_indent (count_indent margin) (λ n. check_indent open_brackets n l)

abbrev pub content : Line → List Token
content blank = []
content (line margin open_brackets t) = other t ∷ []

abbrev pub prepend_tokens : List Token → Option (List Token) → Option (List Token)
prepend_tokens ts none = none
prepend_tokens ts (some us) = some (ts ++ us)

abbrev pub then_lex :
    Option (List Token × Lexer) → List Token → (Lexer → Option (List Token)) → Option (List Token)
then_lex none ts next = none
then_lex (some (us, l)) ts next = prepend_tokens (us ++ ts) (next l)

-- The tokens of a file, and `none` where the lexer reports an error.
unfoldable pub lex_lines : List Line → Lexer → Option (List Token)
unfolding line_start queue_dedents
lex_lines [] l = some ((queue endmarker (queue_dedents l)).tokens)
lex_lines (x ∷ xs) l = then_lex (line_start x l) (content x) (λ m. lex_lines xs m)
