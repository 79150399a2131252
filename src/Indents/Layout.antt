-- ===== src/Indents/Layout.antt =====
-- parser/lexer.go: the lines of nested statements, and the tokens that Lex makes of them.
use taipan.Prelude.{
  ℕ, suc, ◌+◌, ◌<◌, ◌≤◌, false, ◌≡◌, refl, sym, ◌∙◌, ap, arith, some, List, [], ◌∷◌, ◌++◌,
  append_assoc, append-nil,
}
use taipan.Exceptions.{ok}
use taipan.Indents.{
  Token, indent, dedent, endmarker, other, lexer, new_lex, count_indent, queue_dedents, Line, blank,
  line, prepend_tokens, then_lex, lex_lines,
}
use taipan.Indents.Dedents.{
  Follows, prepend_nil, prepend_append, lex_line, lex_pop, line_at-same, line_at-deeper,
}

-- Statements: the first one's text, by how much its body is indented more than one column, its
-- body, and the statements behind it.
pub data Statements : Type 0 where
  done : Statements
  statement : ℕ → ℕ → Statements → Statements → Statements

abbrev pub body_tokens : Statements → List Token → List Token
body_tokens done ts = []
body_tokens (statement t k b r) ts = indent ∷ (ts ++ (dedent ∷ []))

-- The tokens of statements, with each body in brackets.
unfoldable pub bracketed : Statements → List Token
bracketed done = []
bracketed (statement t k body rest) =
    other t ∷ (body_tokens body (bracketed body) ++ bracketed rest)

-- Their lines at column `n`, with the margins that `margin` gives.
module _ (margin : ℕ → List ℕ) where
  unfoldable pub lay_out : ℕ → Statements → List Line
  lay_out n done = []
  lay_out n (statement t k body rest) =
      line (margin n) false t ∷ (lay_out (n + suc k) body ++ lay_out n rest)

at_end : lex_lines [] new_lex ≡ some (endmarker ∷ [])
unfolding lex_lines queue_dedents
at_end = refl

module _ (margin : ℕ → List ℕ) (columns : (n : ℕ) → count_indent (margin n) ≡ ok n) where
  Follows-lay_out :
      (n : ℕ) (b : Statements) (xs : List Line)
      → Follows n xs
      → Follows n (lay_out margin n b ++ xs)
  unfolding lay_out
  Follows-lay_out n done xs f = f
  Follows-lay_out n (statement t k body rest) xs f = (refl, (n, columns n, omega arith))

  Follows-le : (m n : ℕ) (xs : List Line) → m ≤ n → Follows m xs → Follows n xs
  Follows-le m n [] l f = tt
  Follows-le m n (blank ∷ xs) l f = f
  Follows-le m n (line w b t ∷ xs) l (e, (k, c, h)) = (e, (k, c, omega arith))

  first :
      (n : ℕ) (ss : List ℕ) (t : ℕ) (zs : List Line)
      → lex_lines (line (margin n) false t ∷ zs) (lexer (n ∷ ss) [])
        ≡ prepend_tokens (other t ∷ []) (lex_lines zs (lexer (n ∷ ss) []))
  first n ss t zs = rw (lex_line (margin n) t n zs (n ∷ ss) (columns n), line_at-same n ss) refl

  push :
      (m n : ℕ) (ss : List ℕ) (t : ℕ) (zs : List Line)
      → n < m
      → lex_lines (line (margin m) false t ∷ zs) (lexer (n ∷ ss) [])
        ≡ prepend_tokens
            (indent ∷ [])
            (lex_lines (line (margin m) false t ∷ zs) (lexer (m ∷ n ∷ ss) []))
  push m n ss t zs l =
      lex_line (margin m) t m zs (n ∷ ss) (columns m)
      ∙ ap (λ r. then_lex r (other t ∷ []) (λ l. lex_lines zs l)) (line_at-deeper m n ss l)
      ∙ sym (
          ap (prepend_tokens (indent ∷ [])) (first m (n ∷ ss) t zs)
          ∙ prepend_append (indent ∷ []) (other t ∷ []) (lex_lines zs (lexer (m ∷ n ∷ ss) [])))

  -- The lines of `b` at column `n` are read as its tokens where `n` is the top of the stack.
  Reads : ℕ → List ℕ → Statements → Type 0
  Reads n ss b =
      (xs : List Line)
      → Follows n xs
      → lex_lines (lay_out margin n b ++ xs) (lexer (n ∷ ss) [])
        ≡ prepend_tokens (bracketed b) (lex_lines xs (lexer (n ∷ ss) []))

  body-Reads :
      (m n : ℕ) (ss : List ℕ) (b : Statements) (xs : List Line)
      → n < m
      → Reads m (n ∷ ss) b
      → Follows n xs
      → lex_lines (lay_out margin m b ++ xs) (lexer (n ∷ ss) [])
        ≡ prepend_tokens (body_tokens b (bracketed b)) (lex_lines xs (lexer (n ∷ ss) []))
  unfolding Reads lay_out
  body-Reads m n ss done xs l reads f = sym (prepend_nil _)
  body-Reads m n ss (statement t k body rest) xs l reads f =
      let zs = lay_out margin (m + suc k) body ++ lay_out margin m rest ++ xs in
      let inside = bracketed (statement t k body rest) in
      let after = lex_lines xs (lexer (n ∷ ss) []) in
      push m n ss t zs l
      ∙ ap (prepend_tokens (indent ∷ [])) (
          reads xs (Follows-le n m xs (omega arith) f)
          ∙ ap (prepend_tokens inside) (lex_pop m n ss xs l f)
          ∙ prepend_append inside (dedent ∷ []) after)
      ∙ prepend_append (indent ∷ []) (inside ++ (dedent ∷ [])) after

  lay_out-bracketed : (b : Statements) (n : ℕ) (ss : List ℕ) → Reads n ss b
  unfolding Reads lay_out bracketed
  lay_out-bracketed done n ss xs f = sym (prepend_nil _)
  lay_out-bracketed (statement t k body rest) n ss xs f =
      let m = n + suc k in
      let block = body_tokens body (bracketed body) in
      let after = lex_lines xs (lexer (n ∷ ss) []) in
      first n ss t (lay_out margin m body ++ lay_out margin n rest ++ xs)
      ∙ ap (prepend_tokens (other t ∷ [])) (
          ap (λ ls. lex_lines ls (lexer (n ∷ ss) []))
            (append_assoc (lay_out margin m body) (lay_out margin n rest) xs)
          ∙ body-Reads m n ss body (lay_out margin n rest ++ xs) (omega arith)
              (lay_out-bracketed body m (n ∷ ss)) (Follows-lay_out n rest xs f)
          ∙ ap (prepend_tokens block) (lay_out-bracketed rest n ss xs f)
          ∙ prepend_append block (bracketed rest) after)
      ∙ prepend_append (other t ∷ []) (block ++ bracketed rest) after

  -- A file of statements whose bodies are laid out deeper than their heads is read as the tokens of
  -- the statements, with an INDENT before and a DEDENT behind each body, and the ENDMARKER; the
  -- margins may be any for which countIndent gives the column.
  pub lex_lines-lay_out :
      (b : Statements)
      → lex_lines (lay_out margin 0 b) new_lex ≡ some (bracketed b ++ (endmarker ∷ []))
  unfolding Reads
  lex_lines-lay_out b =
      ap (λ ls. lex_lines ls new_lex) (sym (append-nil (lay_out margin 0 b)))
      ∙ lay_out-bracketed b 0 [] [] tt
      ∙ ap (prepend_tokens (bracketed b)) at_end
