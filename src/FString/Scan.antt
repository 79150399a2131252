-- ===== src/FString/Scan.antt =====
-- fstring_rewrite.go: `scanStringLiteral` and the byte tests.
pub mod Sound
use taipan.Prelude.{
  String, ℕ, suc, ◌+◌, ◌-◌, ◌<◌, ◌≤◌, ◌≡◌, Bool, true, false, ◌&&◌, ◌||◌, not, Option, none, some,
  List, [], ◌∷◌, ◌++◌, ◌==◌, leb, if◌then◌else◌, Bytes, length, arith,
}
use taipan.Exceptions.{Exception, exception, syntax_error}

-- What a loop on fuel returns.
pub data Outcome {ℓ} (A : Type ℓ) : Type ℓ where
  value : A → Outcome A
  failure : Exception → Outcome A
  out_of_fuel : Outcome A

infixl 5 ◌>>=◌
abbrev pub ◌>>=◌ {ℓ κ} : {A : Type ℓ} {B : Type κ} → Outcome A → (A → Outcome B) → Outcome B
value a >>= f = f a
failure e >>= f = failure e
out_of_fuel >>= f = out_of_fuel

abbrev pub syntax : String → Exception
syntax m = exception syntax_error m

abbrev pub is_quote : ℕ → Bool
is_quote c = c == 39 || c == 34

unfoldable pub is_identifier_byte : ℕ → Bool
is_identifier_byte ch =
    leb b'a' ch && leb ch b'z'
    || leb b'A' ch && leb ch b'Z'
    || leb b'0' ch && leb ch b'9'
    || ch == b'_'

-- Bytes passed over, and the suffix that is left.
abbrev pub Split : Type 0
Split = Bytes × Bytes

abbrev prepend : Bytes → Option Split → Option Split
prepend p none = none
prepend p (some (q, rest)) = some (p ++ q, rest)

-- A closing triple quote at the head, when three bytes are left.
close_triple : ℕ → ℕ → ℕ → Bytes → Option Split
close_triple quote c d [] = none
close_triple quote c d (e ∷ rest) =
    if c == quote && d == quote && e == quote then some (c ∷ d ∷ e ∷ [], rest) else none

-- The loop of `scanStringLiteral`, from behind the opening quote; `triple` is `quoteLen == 3`. A
-- backslash passes over two bytes; the loop ends with `none` when the bytes run out.
unfoldable pub scan_body : Bool → ℕ → Bytes → Option Split
unfolding close_triple
scan_body triple quote [] = none
scan_body triple quote (c ∷ []) =
    if c == 92 then none else if not triple && c == quote then some (c ∷ [], []) else none
scan_body triple quote (c ∷ d ∷ rest) =
    let escaped = prepend (c ∷ d ∷ []) (scan_body triple quote rest) in
    let next = prepend (c ∷ []) (scan_body triple quote (d ∷ rest)) in
    if c == 92
    then escaped
    else if not triple
    then (if c == quote then some (c ∷ [], d ∷ rest) else next)
    else elim (close_triple quote c d rest) [ some s ↦ some s | none ↦ next ]

-- Three quotes open the literal: `source[start+1] == quote && source[start+2] == quote`.
unfoldable pub opens_triple : ℕ → Bytes → Bool
opens_triple quote (c ∷ d ∷ rest) = c == quote && d == quote
opens_triple quote _ = false

abbrev closed : Bytes → Option Split → Outcome Split
closed opening none = failure (syntax "unterminated string literal")
closed opening (some (body, rest)) = value (opening ++ body, rest)

abbrev behind_two : Bytes → Bytes
behind_two (c ∷ d ∷ rest) = rest
behind_two _ = []

-- The literal with its quotes, and the rest of the source.
unfoldable pub scan_string_literal : Bytes → Outcome Split
unfolding scan_body opens_triple
scan_string_literal [] = failure (syntax "invalid string literal")
scan_string_literal (quote ∷ rest) =
    if not (is_quote quote)
    then failure (syntax "invalid string literal")
    else if opens_triple quote rest
    then closed (quote ∷ quote ∷ quote ∷ []) (scan_body true quote (behind_two rest))
    else closed (quote ∷ []) (scan_body false quote rest)
