-- ===== src/FString/Trim.antt =====
-- Go's `strings.TrimSpace`, over the UTF-8 bytes of a text: the white space of `unicode.IsSpace`.
use taipan.Prelude.{ℕ, ◌≡◌, refl, Bool, ◌&&◌, ◌||◌, [], ◌∷◌, ◌==◌, leb, if◌then◌else◌, Bytes, codes}
use mathlib.Core.List.{reverse}

abbrev is_ascii_space : ℕ → Bool
is_ascii_space c = leb 9 c && leb c 13 || c == 32

-- U+0085 and U+00A0
abbrev is_space_2 : ℕ → ℕ → Bool
is_space_2 a b = a == 0xc2 && (b == 0x85 || b == 0xa0)

-- U+1680, U+2000 to U+200A, U+2028, U+2029, U+202F, U+205F, U+3000
abbrev is_space_3 : ℕ → ℕ → ℕ → Bool
is_space_3 a b c =
    a == 0xe1 && b == 0x9a && c == 0x80
    || a == 0xe2 && b == 0x80 && (leb 0x80 c && leb c 0x8a || c == 0xa8 || c == 0xa9 || c == 0xaf)
    || a == 0xe2 && b == 0x81 && c == 0x9f
    || a == 0xe3 && b == 0x80 && c == 0x80

trim_left : Bytes → Bytes
trim_left [] = []
trim_left (a ∷ []) = if is_ascii_space a then [] else a ∷ []
trim_left (a ∷ b ∷ []) =
    let one = trim_left (b ∷ []) in
    if is_ascii_space a then one else if is_space_2 a b then [] else a ∷ b ∷ []
trim_left (a ∷ b ∷ c ∷ rest) =
    let one = trim_left (b ∷ c ∷ rest) in
    let two = trim_left (c ∷ rest) in
    let three = trim_left rest in
    if is_ascii_space a
    then one
    else if is_space_2 a b
    then two
    else if is_space_3 a b c
    then three
    else a ∷ b ∷ c ∷ rest

-- The same from the end: on the reversed bytes.
trim_right_reversed : Bytes → Bytes
trim_right_reversed [] = []
trim_right_reversed (a ∷ []) = if is_ascii_space a then [] else a ∷ []
trim_right_reversed (b ∷ a ∷ []) =
    let one = trim_right_reversed (a ∷ []) in
    if is_ascii_space b then one else if is_space_2 a b then [] else b ∷ a ∷ []
trim_right_reversed (c ∷ b ∷ a ∷ rest) =
    let one = trim_right_reversed (b ∷ a ∷ rest) in
    let two = trim_right_reversed (a ∷ rest) in
    let three = trim_right_reversed rest in
    if is_ascii_space c
    then one
    else if is_space_2 b c
    then two
    else if is_space_3 a b c
    then three
    else c ∷ b ∷ a ∷ rest

unfoldable pub trim_space : Bytes → Bytes
unfolding trim_left trim_right_reversed
trim_space s = reverse (trim_right_reversed (reverse (trim_left s)))

trims_both_ends : trim_space (codes " \t a b \n") ≡ codes "a b"
unfolding trim_space
trims_both_ends = refl
