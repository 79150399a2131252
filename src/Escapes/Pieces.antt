-- ===== src/Escapes/Pieces.antt =====
-- parser/stringescape.go: the escape sequences of a literal, described by themselves: how each is
-- spelled, and what it stands for.
use taipan.Prelude.{
  ℕ, ◌+◌, ◌*◌, ◌<◌, Bool, true, false, ◌≡◌, ◌≢◌, ◌⊎◌, Option, some, List, [], ◌∷◌, ◌++◌, length,
}
use taipan.Prelude.Int.{ℤ, pos}
use taipan.Escapes.{Written, rune, plain, write, backslash}

-- An octal escape has three digits here; a short hexadecimal one is \xhh, the others \uxxxx and
-- \Uxxxxxxxx.
pub data Piece : Type 0 where
  character : ℕ → Piece
  simple : ℕ → List Written → Piece
  octal : ℕ → ℕ → ℕ → Piece
  hex_2 hex_4 hex_8 : List ℕ → ℤ → Piece
  unknown : ℕ → Piece

-- The escapes of one character, and what each stands for: nothing for a newline, the character
-- itself for a backslash or a quote, and a control character for a letter.
pub data IsSimple : ℕ → List Written → Type 0 where
  line_continuation : IsSimple 10 []
  escaped_backslash : IsSimple 92 (plain 92 ∷ [])
  single_quote : IsSimple 39 (plain 39 ∷ [])
  double_quote : IsSimple 34 (plain 34 ∷ [])
  bell_a : IsSimple 97 (plain 7 ∷ [])
  backspace_b : IsSimple 98 (plain 8 ∷ [])
  tab_t : IsSimple 116 (plain 9 ∷ [])
  newline_n : IsSimple 110 (plain 10 ∷ [])
  vertical_tab_v : IsSimple 118 (plain 11 ∷ [])
  form_feed_f : IsSimple 102 (plain 12 ∷ [])
  carriage_return_r : IsSimple 114 (plain 13 ∷ [])

abbrev pub Differs : ℕ → List ℕ → Type 0
Differs c [] = Unit
Differs c (x ∷ xs) = (c ≢ x) × Differs c xs

unfoldable pub spelling : Piece → List ℕ
spelling (character c) = c ∷ []
spelling (simple c w) = backslash ∷ c ∷ []
spelling (octal a b c) = backslash ∷ (48 + a) ∷ (48 + b) ∷ (48 + c) ∷ []
spelling (hex_2 ds v) = backslash ∷ 120 ∷ ds
spelling (hex_4 ds v) = backslash ∷ 117 ∷ ds
spelling (hex_8 ds v) = backslash ∷ 85 ∷ ds
spelling (unknown c) = backslash ∷ c ∷ []

unfoldable pub meaning : Bool → Piece → List Written
meaning byte_mode (character c) = plain c ∷ []
meaning byte_mode (simple c w) = w
meaning byte_mode (octal a b c) = write byte_mode (pos (64 * a + 8 * b + c)) ∷ []
meaning byte_mode (hex_2 ds v) = write byte_mode v ∷ []
meaning byte_mode (hex_4 ds v) = rune v ∷ []
meaning byte_mode (hex_8 ds v) = rune v ∷ []
meaning byte_mode (unknown c) = plain backslash ∷ plain c ∷ []

-- The character starts no escape: neither a simple nor an octal one, nor one of x, u and U, the
-- last two of which bytes do not have.
abbrev pub IsUnknown : Bool → ℕ → Type 0
IsUnknown byte_mode c =
    Differs c (10 ∷ 92 ∷ 39 ∷ 34 ∷ 97 ∷ 98 ∷ 116 ∷ 110 ∷ 118 ∷ 102 ∷ 114 ∷ [])
    × ((c < 48) ⊎ (55 < c))
    × (c ≢ 120)
    × ((byte_mode ≡ true) ⊎ ((c ≢ 117) × (c ≢ 85)))

module _ (parse_int : List ℕ → Option ℤ) where
  abbrev pub IsHex : ℕ → List ℕ → ℤ → Type 0
  IsHex size ds v = (length ds ≡ size) × (parse_int ds ≡ some v)

  abbrev pub IsValid : Bool → Piece → Type 0
  IsValid byte_mode (character c) = c ≢ backslash
  IsValid byte_mode (simple c w) = IsSimple c w
  IsValid byte_mode (octal a b c) = (a < 8) × (b < 8) × (c < 8)
  IsValid byte_mode (hex_2 ds v) = IsHex 2 ds v
  IsValid byte_mode (hex_4 ds v) = (byte_mode ≡ false) × IsHex 4 ds v
  IsValid byte_mode (hex_8 ds v) = (byte_mode ≡ false) × IsHex 8 ds v
  IsValid byte_mode (unknown c) = IsUnknown byte_mode c

  abbrev pub AllValid : Bool → List Piece → Type 0
  AllValid byte_mode [] = Unit
  AllValid byte_mode (p ∷ ps) = IsValid byte_mode p × AllValid byte_mode ps

abbrev pub text : List Piece → List ℕ
text [] = []
text (p ∷ ps) = spelling p ++ text ps

abbrev pub meanings : Bool → List Piece → List Written
meanings byte_mode [] = []
meanings byte_mode (p ∷ ps) = meaning byte_mode p ++ meanings byte_mode ps
