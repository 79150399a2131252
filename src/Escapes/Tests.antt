-- ===== src/Escapes/Tests.antt =====
-- parser/stringescape.go: concrete literals, with a reading of hexadecimal numbers that has an
-- optional sign, as that of strconv.ParseInt.
use taipan.Prelude.{
  ◌<◌, ℕ, ◌+◌, ◌-◌, ◌*◌, leb, ◌==◌, ◌&&◌, true, false, if◌then◌else◌, ◌≡◌, ◌≢◌, refl, Option, none,
  some, List, [], ◌∷◌, codes, arith,
}
use taipan.Prelude.Int.{ℤ, pos, neg_ℕ}
use taipan.Exceptions.{ok, err, exception, value_error}
use taipan.Escapes.{rune, byte, plain, decode_escape}
use taipan.Escapes.Pieces.{
  AllValid, IsUnknown, newline_n, line_continuation, Piece, character, simple, octal, hex_2, hex_4,
  unknown, text, meanings, spelling, meaning,
}
use taipan.Escapes.Decode.{decode_escape-text}
use taipan.Escapes.Ends.{decode_escape-ends}

abbrev digit : ℕ → Option ℕ
digit c =
    if leb 48 c && leb c 57
    then some (c - 48)
    else if leb 97 c && leb c 102
    then some (c - 87)
    else if leb 65 c && leb c 70
    then some (c - 55)
    else none

abbrev add_digit : ℕ → Option ℕ → Option ℕ
add_digit v none = none
add_digit v (some d) = some (v * 16 + d)

abbrev number : Option ℕ → List ℕ → Option ℕ
number none cs = none
number (some v) [] = some v
number (some v) (c ∷ cs) = number (add_digit v (digit c)) cs

abbrev unsigned : Option ℕ → Option ℤ
unsigned none = none
unsigned (some v) = some (pos v)

abbrev negated : Option ℕ → Option ℤ
negated none = none
negated (some v) = some (neg_ℕ v)

abbrev parse_hex : List ℕ → Option ℤ
parse_hex [] = none
parse_hex (c ∷ cs) =
    if c == 43
    then unsigned (number (some 0) cs)
    else if c == 45
    then negated (number (some 0) cs)
    else unsigned (number (some 0) (c ∷ cs))

-- a\n\x41\101\u00e9\q, and a backslash before the end of the line
abbrev sample : List Piece
sample =
    character 97
    ∷ simple 110 (plain 10 ∷ [])
    ∷ hex_2 (codes "41") (pos 0x41)
    ∷ octal 1 0 1
    ∷ hex_4 (codes "00e9") (pos 0xe9)
    ∷ unknown 113
    ∷ simple 10 []
    ∷ []

sample-text : text sample ≡ codes "a\\n\\x41\\101\\u00e9\\q\\\n"
unfolding spelling
sample-text = refl

q-IsUnknown : IsUnknown false 113
q-IsUnknown = ground arith

sample-AllValid : AllValid parse_hex false sample
sample-AllValid =
    let digits : (1 < 8) × (0 < 8) × (1 < 8) = (omega arith, omega arith, omega arith) in
    (
      (λ e. ground (arith, e)),
      (
        newline_n,
        ((refl, refl), (digits, ((refl, (refl, refl)), (q-IsUnknown, (line_continuation, tt))))),
      ),
    )

decode_escape-text_example :
    decode_escape parse_hex false (text sample) ≡ some (ok (meanings false sample))
decode_escape-text_example = decode_escape-text parse_hex false sample sample-AllValid

sample_meaning :
    meanings false sample
    ≡ rune (pos 97)
      ∷ rune (pos 10)
      ∷ rune (pos 65)
      ∷ rune (pos 65)
      ∷ rune (pos 233)
      ∷ rune (pos 92)
      ∷ rune (pos 113)
      ∷ []
unfolding meaning
sample_meaning = refl

decode_escape-ends_example : decode_escape parse_hex true (codes "\\x4") ≢ none
decode_escape-ends_example = decode_escape-ends parse_hex true (codes "\\x4")

truncated :
    decode_escape parse_hex true (codes "\\x4")
    ≡ some (err (exception value_error "truncated \\%c escape at position %d"))
unfolding decode_escape
truncated = refl

trailing :
    decode_escape parse_hex false (codes "ab\\")
    ≡ some (err (exception value_error "Trailing \\ in string"))
unfolding decode_escape
trailing = refl

-- An octal escape beyond a byte wraps around, and one of fewer digits ends at another character.
octal_byte :
    decode_escape parse_hex true (codes "\\777\\18") ≡ some (ok (byte 255 ∷ byte 1 ∷ plain 56 ∷ []))
unfolding decode_escape
octal_byte = refl

-- A sign is taken for a digit.
signed : decode_escape parse_hex false (codes "\\x+1") ≡ some (ok (rune (pos 1) ∷ []))
unfolding decode_escape
signed = refl
