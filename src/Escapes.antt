-- ===== src/Escapes.antt =====
-- parser/stringescape.go: DecodeEscape, over the runes of the literal. What it writes to the
-- buffer is kept as runes and single bytes. strconv.ParseInt with base 16 and 32 bits is a parameter.
pub mod Pieces
pub mod Decode
pub mod Ends
mod Tests
use taipan.Prelude.{
  ℕ, zero, suc, ◌+◌, ◌-◌, ◌*◌, ◌%◌, leb, ◌==◌, Bool, true, false, ◌&&◌, ◌||◌, not, Option, none,
  some, List, [], ◌∷◌, ◌++◌, map, length, take, drop, if◌then◌else◌,
}
use taipan.Prelude.Int.{ℤ, pos, negsuc}
use taipan.Exceptions.{Result, ok, err, exception, value_error}

-- A rune is an int32, and WriteRune takes a negative one too.
pub data Written : Type 0 where
  rune : ℤ → Written
  byte : ℕ → Written

abbrev pub backslash : ℕ
backslash = 92

abbrev pub plain : ℕ → Written
plain c = rune (pos c)

unfoldable pub has_backslash : List ℕ → Bool
has_backslash [] = false
has_backslash (c ∷ cs) = (c == backslash) || has_backslash cs

-- What the escapes of one character write: those of newline, \, ', ", b, f, t, n, r, v and a.
unfoldable pub simple_escape : ℕ → Option (List Written)
simple_escape c =
    if c == 10
    then some []
    else if c == 92
    then some (plain 92 ∷ [])
    else if c == 39
    then some (plain 39 ∷ [])
    else if c == 34
    then some (plain 34 ∷ [])
    else if c == 98
    then some (plain 8 ∷ [])
    else if c == 102
    then some (plain 12 ∷ [])
    else if c == 116
    then some (plain 9 ∷ [])
    else if c == 110
    then some (plain 10 ∷ [])
    else if c == 114
    then some (plain 13 ∷ [])
    else if c == 118
    then some (plain 11 ∷ [])
    else if c == 97
    then some (plain 7 ∷ [])
    else none

abbrev pub is_octal : ℕ → Bool
is_octal c = leb 48 c && leb c 55

-- Go's conversion to a byte.
abbrev pub to_byte : ℤ → ℕ
to_byte (pos n) = n % 256
to_byte (negsuc n) = 255 - n % 256

-- A rune, or in byte mode a byte.
abbrev pub write : Bool → ℤ → Written
write true v = byte (to_byte v)
write false v = rune v

-- Up to two more octal digits behind the value so far.
unfoldable pub more_octal : ℕ → ℕ → List ℕ → ℕ × List ℕ
more_octal zero v cs = (v, cs)
more_octal (suc n) v [] = (v, [])
more_octal (suc n) v (c ∷ cs) =
    let rest = more_octal n (v * 8 + c - 48) cs in if is_octal c then rest else (v, c ∷ cs)

abbrev pub octal_escape : Bool → ℕ × List ℕ → List Written × List ℕ
octal_escape byte_mode (v, cs) = (write byte_mode (pos v) ∷ [], cs)

abbrev pub simple_or :
    Option (List Written) → List ℕ → Result (List Written × List ℕ) → Result (List Written × List ℕ)
simple_or (some w) cs long = ok (w, cs)
simple_or none cs long = long

abbrev pub prefix : List Written → Option (Result (List Written)) → Option (Result (List Written))
prefix w (some (ok out)) = some (ok (w ++ out))
prefix w r = r

abbrev pub and_then :
    Result (List Written × List ℕ)
    → (List ℕ → Option (Result (List Written)))
    → Option (Result (List Written))
and_then (err e) next = some (err e)
and_then (ok (w, cs)) next = prefix w (next cs)

module _ (parse_int : List ℕ → Option ℤ) where
  abbrev pub hex_value : Bool → Option ℤ → List ℕ → Result (List Written × List ℕ)
  hex_value byte_mode none cs = err (exception value_error "invalid \\%c escape at position %d")
  hex_value byte_mode (some v) cs = ok (write byte_mode v ∷ [], cs)

  -- The hexadecimal digits in front of `cs`.
  unfoldable pub decode_hex : Bool → ℕ → List ℕ → Result (List Written × List ℕ)
  decode_hex byte_mode size cs =
      if leb size (length cs)
      then hex_value byte_mode (parse_int (take size cs)) (drop size cs)
      else err (exception value_error "truncated \\%c escape at position %d")

  -- An escape that is not a simple one. An unrecognised one keeps its backslash, and its character
  -- is read again.
  unfoldable pub long_escape : Bool → ℕ → List ℕ → Result (List Written × List ℕ)
  unfolding more_octal decode_hex
  long_escape byte_mode c cs =
      if is_octal c
      then ok (octal_escape byte_mode (more_octal 2 (c - 48) cs))
      else if c == 120
      then decode_hex byte_mode 2 cs
      else if (c == 117) && not byte_mode
      then decode_hex byte_mode 4 cs
      else if (c == 85) && not byte_mode
      then decode_hex byte_mode 8 cs
      else ok (plain backslash ∷ [], c ∷ cs)

  -- Behind a backslash.
  unfoldable pub decode_backslash : Bool → List ℕ → Result (List Written × List ℕ)
  unfolding simple_escape long_escape
  decode_backslash byte_mode [] = err (exception value_error "Trailing \\ in string")
  decode_backslash byte_mode (c ∷ cs) = simple_or (simple_escape c) cs (long_escape byte_mode c cs)

  -- A round of the loop: what it writes, and the runes behind those it reads.
  unfoldable pub decode_one : Bool → ℕ → List ℕ → Result (List Written × List ℕ)
  unfolding decode_backslash
  decode_one byte_mode c cs =
      if c == backslash then decode_backslash byte_mode cs else ok (plain c ∷ [], cs)

  -- `none` is that the fuel, a round each, runs out.
  unfoldable pub decode_loop : ℕ → Bool → List ℕ → Option (Result (List Written))
  unfolding decode_one
  decode_loop zero byte_mode cs = none
  decode_loop (suc fuel) byte_mode [] = some (ok [])
  decode_loop (suc fuel) byte_mode (c ∷ cs) =
      and_then (decode_one byte_mode c cs) (λ rest. decode_loop fuel byte_mode rest)

  unfoldable pub decode_escape : Bool → List ℕ → Option (Result (List Written))
  unfolding has_backslash decode_loop
  decode_escape byte_mode cs =
      if has_backslash cs
      then decode_loop (suc (length cs)) byte_mode cs
      else some (ok (map plain cs))
