-- ===== src/FString/Rewrite.antt =====
-- fstring_rewrite.go: `isFStringStart`, `rewriteFStringAt` and `rewriteFStrings`.
pub mod Loop
pub mod Format
use taipan.Prelude.{
  ℕ, zero, suc, ◌+◌, ◌-◌, ◌<◌, ◌≤◌, ◌≡◌, Bool, true, false, ◌&&◌, ◌||◌, not, Option, none, some,
  List, [], ◌∷◌, ◌++◌, ◌==◌, ltb, if◌then◌else◌, Bytes, length, take, drop, arith, codes, refl,
}
use taipan.FString.Scan.{
  Outcome, value, failure, out_of_fuel, ◌>>=◌, syntax, is_quote, Split, scan_string_literal,
  opens_triple, is_identifier_byte, scan_body,
}
use taipan.FString.Content.{parse_f_string_content, placeholder, parse_f_string_expr}
use taipan.FString.Trim.{trim_space}

abbrev pub after_identifier : Option ℕ → Bool
unfolding is_identifier_byte
after_identifier none = false
after_identifier (some c) = is_identifier_byte c

-- `i` is in range where the suffix has two bytes; `prev` is `source[i-1]`, if `i > 0`.
unfoldable pub is_f_string_start : Option ℕ → Bytes → Bool
unfolding is_identifier_byte
is_f_string_start prev (f ∷ q ∷ rest) =
    (f == b'f' || f == b'F') && is_quote q && not (after_identifier prev)
is_f_string_start prev _ = false

-- `strings.ReplaceAll` of one byte by a text.
unfoldable pub replace_all : ℕ → Bytes → Bytes → Bytes
replace_all old new [] = []
replace_all old new (c ∷ cs) =
    if c == old then new ++ replace_all old new cs else c ∷ replace_all old new cs

-- The two replacements that turn a template into a %-format string.
unfoldable pub format_string : Bytes → Bytes
unfolding replace_all
format_string template =
    replace_all placeholder (codes "%s") (replace_all b'%' (codes "%%") template)

-- `strings.Join(exprs, ", ")`
unfoldable pub join : List Bytes → Bytes
join [] = []
join (e ∷ []) = e
join (e ∷ e' ∷ es) = e ++ (codes ", " ++ join (e' ∷ es))

-- The literal, and the tuple of its arguments when there are any.
unfoldable pub with_arguments : Bytes → List Bytes → Bytes
unfolding join
with_arguments literal [] = literal
with_arguments literal (e ∷ []) = literal ++ (codes " % (" ++ (e ++ codes ",)"))
with_arguments literal (e ∷ e' ∷ es) =
    literal ++ (codes " % (" ++ (join (e ∷ e' ∷ es) ++ codes ")"))

-- The first byte of a literal is its quote.
abbrev quote_of : Bytes → ℕ
quote_of [] = 0
quote_of (q ∷ rest) = q

abbrev tail_of : Bytes → Bytes
tail_of [] = []
tail_of (q ∷ rest) = rest

-- `quoteLen`, of the literal behind the `f`
unfoldable pub quote_text : Bytes → Bytes
unfolding opens_triple
quote_text source =
    if opens_triple (quote_of source) (tail_of source)
    then quote_of source ∷ quote_of source ∷ quote_of source ∷ []
    else quote_of source ∷ []

-- `contentStart > contentEnd` is refused; the content stands between the quotes.
unfoldable pub content_of : Bytes → Bytes → Outcome Bytes
content_of quotes literal =
    if ltb (length literal - length quotes) (length quotes)
    then failure (syntax "invalid f-string")
    else value (drop (length quotes) (take (length literal - length quotes) literal))

-- The suffix starts behind the `f`: the rewritten text and the rest behind the literal.
unfoldable pub rewrite_f_string_at : Bytes → Outcome Split
unfolding quote_text content_of format_string with_arguments
rewrite_f_string_at source = scan_string_literal source >>= λ literal.
    content_of (quote_text source) literal.0 >>= λ content.
    parse_f_string_content (suc (length content)) [] [] content >>= λ parsed. value (
      with_arguments (quote_text source ++ (format_string parsed.0 ++ quote_text source)) parsed.1,
      literal.1,
    )

-- A comment, up to the newline or the end.
unfoldable pub scan_comment : Bytes → Split
scan_comment [] = ([], [])
scan_comment (c ∷ cs) =
    let (text, rest) = scan_comment cs in if c == 10 then ([], c ∷ cs) else (c ∷ text, rest)

-- The last byte passed over: `source[i-1]` at the next round.
abbrev pub last_of : ℕ → Bytes → Option ℕ
last_of c [] = some c
last_of c (d ∷ ds) = last_of d ds

-- What was written, in front of what the rest of the loop writes.
abbrev pub emit : Bytes → Outcome Bytes → Outcome Bytes
emit text rest = rest >>= λ out. value (text ++ out)

unfoldable pub rewrite_loop : ℕ → Option ℕ → Bytes → Outcome Bytes
unfolding scan_comment is_f_string_start
rewrite_loop zero prev source = out_of_fuel
rewrite_loop (suc fuel) prev [] = value []
rewrite_loop (suc fuel) prev (ch ∷ rest) =
    let f_string =
      rewrite_f_string_at rest >>= λ s. emit s.0 (rewrite_loop fuel (some (quote_of rest)) s.1) in
    let comment =
      emit (ch ∷ (scan_comment rest).0)
        (rewrite_loop fuel (last_of ch (scan_comment rest).0) (scan_comment rest).1) in
    let quoted =
      scan_string_literal (ch ∷ rest) >>= λ s. emit s.0 (rewrite_loop fuel (some ch) s.1) in
    let next = emit (ch ∷ []) (rewrite_loop fuel (some ch) rest) in
    if is_f_string_start prev (ch ∷ rest)
    then f_string
    else if ch == b'#'
    then comment
    else if is_quote ch
    then quoted
    else next

unfoldable pub rewrite_f_strings : Bytes → Outcome Bytes
unfolding rewrite_loop rewrite_f_string_at parse_f_string_content parse_f_string_expr
    scan_string_literal trim_space
rewrite_f_strings source = rewrite_loop (suc (length source)) none source
