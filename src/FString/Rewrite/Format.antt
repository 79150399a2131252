-- ===== src/FString/Rewrite/Format.antt =====
-- fstring_rewrite.go against py/string.go: the %-format string that an f-string becomes, put
-- through `String.M__mod__`. The values are the texts that `%v` prints.
use taipan.Prelude.{
  ℕ, ◌+◌, ◌<◌, ◌≡◌, ◌≢◌, Bool, false, ◌&&◌, ◌||◌, Option, none, some, List, [], ◌∷◌, ◌++◌, ◌==◌,
  if◌then◌else◌, Bytes, length, arith, refl, length-append, ap, codes, append-nil, map, ◌∙◌,
}
use mathlib.Core.Option
use taipan.FString.Rewrite.{format_string, replace_all, with_arguments}
use taipan.FString.Content.Placeholders.{count}
use taipan.FString.Content.{placeholder}
use taipan.Prelude.Int.{ℤ}
use taipan.Exceptions.{ok}
use taipan.Escapes.{has_backslash, plain, decode_escape}

-- `strings.ReplaceAll` of a two-byte text, from the left and without overlap.
unfoldable pub replace_pair : ℕ → ℕ → Bytes → Bytes → Bytes
replace_pair a b new [] = []
replace_pair a b new (c ∷ []) = c ∷ []
replace_pair a b new (c ∷ d ∷ rest) =
    let found = new ++ replace_pair a b new rest in
    let next = c ∷ replace_pair a b new (d ∷ rest) in if c == a && d == b then found else next

-- `fmt.Sprintf` with the verbs `%v` and `%%` alone, one value for each `%v`; another verb, a missing
-- value or a value left over, for which the text has `%!v(MISSING)` or `%!(EXTRA ...)`, is `none`.
unfoldable pub sprintf : Bytes → List Bytes → Option Bytes
sprintf [] [] = some []
sprintf [] (v ∷ vs) = none
sprintf (c ∷ []) vs = if c == b'%' then none else Option.map (◌∷◌ c) (sprintf [] vs)
sprintf (c ∷ d ∷ rest) vs =
    let plain = Option.map (◌∷◌ c) (sprintf (d ∷ rest) vs) in
    let percent = Option.map (◌∷◌ b'%') (sprintf rest vs) in
    let verb : Option Bytes = elim vs [
      | [] ↦ none
      | v ∷ vs' ↦ Option.map (◌++◌ v) (sprintf rest vs')
    ] in
    if c == b'%' then (if d == b'%' then percent else if d == b'v' then verb else none) else plain

-- `M__mod__` on a tuple with as many values as there are verbs, over the bytes of the string, which
-- are those of its literal behind the decoding of the escapes. Another number of values is `none`.
unfoldable pub str_mod : Bytes → List Bytes → Option Bytes
unfolding replace_pair sprintf
str_mod s values =
    sprintf (replace_pair b'%' b'r' (codes "%#v") (replace_pair b'%' b's' (codes "%v") s)) values

-- What an f-string means: the values in the places of the placeholders.
unfoldable pub interpolate : Bytes → List Bytes → Option Bytes
interpolate [] [] = some []
interpolate [] (v ∷ vs) = none
interpolate (c ∷ rest) vs =
    let plain = Option.map (◌∷◌ c) (interpolate rest vs) in
    let hole : Option Bytes = elim vs [
      | [] ↦ none
      | v ∷ vs' ↦ Option.map (◌++◌ v) (interpolate rest vs')
    ] in
    if c == placeholder then hole else plain

-- No `%s` and no `%r` in the text of the template.
abbrev verb_behind : ℕ → Bytes → Bool
verb_behind c [] = false
verb_behind c (d ∷ rest) = c == b'%' && (d == b's' || d == b'r')

unfoldable pub has_verb : Bytes → Bool
has_verb [] = false
has_verb (c ∷ rest) = verb_behind c rest || has_verb rest

-- The format string that `Sprintf` is to see.
go_format : Bytes → Bytes
go_format [] = []
go_format (c ∷ rest) =
    let rest' = go_format rest in
    if c == placeholder
    then b'%' ∷ b'v' ∷ rest'
    else if c == b'%'
    then b'%' ∷ b'%' ∷ rest'
    else c ∷ rest'

format_string-cons :
    (c : ℕ) (t : Bytes)
    → format_string (c ∷ t) ≡ (
        if c == placeholder
        then b'%' ∷ b's' ∷ format_string t
        else if c == b'%'
        then b'%' ∷ b'%' ∷ format_string t
        else c ∷ format_string t)
unfolding format_string replace_all
format_string-cons c t = ground arith

-- A byte that opens no verb is copied.
sprintf_plain :
    (c : ℕ) (s : Bytes) (vs : List Bytes)
    → (c == b'%') ≡ false
    → sprintf (c ∷ s) vs ≡ Option.map (◌∷◌ c) (sprintf s vs)
unfolding sprintf
sprintf_plain c [] vs h = ground arith
sprintf_plain c (d ∷ s) vs h = ground arith

sprintf-go_format : (t : Bytes) (vs : List Bytes) → sprintf (go_format t) vs ≡ interpolate t vs
unfolding sprintf go_format interpolate
sprintf-go_format [] [] = refl
sprintf-go_format [] (v ∷ vs) = refl
sprintf-go_format (c ∷ t) [] =
    ground (arith, sprintf_plain c (go_format t) [], sprintf-go_format t [])
sprintf-go_format (c ∷ t) (v ∷ vs) = ground (
  arith,
  sprintf_plain c (go_format t) (v ∷ vs),
  sprintf-go_format t (v ∷ vs),
  sprintf-go_format t vs,
)

abbrev head_is : ℕ → Bytes → Bool
head_is b [] = false
head_is b (c ∷ rest) = c == b

-- A byte that does not start an occurrence is copied.
replace_pair_skip :
    (a b c : ℕ) (new s : Bytes)
    → (c == a && head_is b s) ≡ false
    → replace_pair a b new (c ∷ s) ≡ c ∷ replace_pair a b new s
unfolding replace_pair
replace_pair_skip a b c new [] h = refl
replace_pair_skip a b c new (d ∷ s) h = ground arith

head_is-format_string : (t : Bytes) → head_is b's' (format_string t) ≡ head_is b's' t
unfolding format_string replace_all
head_is-format_string [] = refl
head_is-format_string (c ∷ t) = ground arith

head_is-go_format : (t : Bytes) → head_is b'r' (go_format t) ≡ head_is b'r' t
unfolding go_format
head_is-go_format [] = refl
head_is-go_format (c ∷ t) = ground arith

verb_behind_head :
    (c : ℕ) (t : Bytes) → verb_behind c t ≡ (c == b'%' && (head_is b's' t || head_is b'r' t))
verb_behind_head c [] = ground arith
verb_behind_head c (d ∷ t) = refl

replace_s :
    (t : Bytes)
    → has_verb t ≡ false
    → replace_pair b'%' b's' (codes "%v") (format_string t) ≡ go_format t
unfolding has_verb go_format replace_pair
replace_s [] h = unfold format_string replace_all in refl
replace_s (c ∷ t) h = rw format_string-cons (
    ground (
      arith,
      verb_behind_head c t,
      head_is-format_string t,
      replace_s t,
      replace_pair_skip b'%' b's' b'%' (codes "%v") (format_string t),
      replace_pair_skip b'%' b's' c (codes "%v") (format_string t),
    ))

replace_r :
    (t : Bytes)
    → has_verb t ≡ false
    → replace_pair b'%' b'r' (codes "%#v") (go_format t) ≡ go_format t
unfolding has_verb go_format replace_pair
replace_r [] h = refl
replace_r (c ∷ t) h = ground (
  arith,
  verb_behind_head c t,
  head_is-go_format t,
  replace_r t,
  replace_pair_skip b'%' b'r' b'%' (codes "%#v") (go_format t),
  replace_pair_skip b'%' b'r' b'v' (codes "%#v") (go_format t),
  replace_pair_skip b'%' b'r' c (codes "%#v") (go_format t),
)

-- The rewriting brings no backslash into the text.
has_backslash-format_string : (t : Bytes) → has_backslash (format_string t) ≡ has_backslash t
unfolding has_backslash
has_backslash-format_string [] = unfold format_string replace_all in refl
has_backslash-format_string (c ∷ t) =
    rw format_string-cons (ground (arith, has_backslash-format_string t))

decode_escape-plain :
    (parse_int : List ℕ → Option ℤ) (cs : List ℕ)
    → has_backslash cs ≡ false
    → decode_escape parse_int false cs ≡ some (ok (map plain cs))
unfolding decode_escape
decode_escape-plain parse_int cs h = rw h refl

-- The text of the literal that an f-string's template is rewritten to is decoded to itself by
-- DecodeEscape, and formatting it puts the values in the places of the placeholders and leaves all
-- other text as it is, doubled `%` signs included. This holds for every template whose text has no
-- backslash, no `%s` and no `%r`, and whatever strconv.ParseInt answers.
pub str_mod-format_string :
    (parse_int : List ℕ → Option ℤ) (template : Bytes) (values : List Bytes)
    → has_backslash template ≡ false
    → has_verb template ≡ false
    → (decode_escape parse_int false (format_string template)
        ≡ some (ok (map plain (format_string template))))
      × (str_mod (format_string template) values ≡ interpolate template values)
unfolding str_mod
str_mod-format_string parse_int t vs b h = (
  decode_escape-plain parse_int (format_string t) (has_backslash-format_string t ∙ b),
  rw (replace_s t h, replace_r t h) (sprintf-go_format t vs),
)

-- Where the text has a `%s` in front of its only placeholder, the value is put in, and the text's
-- own `%s` comes out as `%v`: the result is not the interpolated text.
pub str_mod_verb_lost :
    (value : Bytes)
    → (str_mod (format_string (codes "%s" ++ (placeholder ∷ []))) (value ∷ [])
        ≡ some (codes "%v" ++ value))
      × (interpolate (codes "%s" ++ (placeholder ∷ [])) (value ∷ []) ≡ some (codes "%s" ++ value))
unfolding str_mod format_string interpolate
str_mod_verb_lost value = (rw append-nil, rw append-nil)

length-format_string :
    (t : Bytes) → length (format_string t) ≡ length t + count b'%' t + count placeholder t
length-format_string [] = unfold format_string replace_all in omega arith
length-format_string (c ∷ t) = rw format_string-cons (ground (arith, length-format_string t))

-- With no expression nothing undoes the doubling: the literal that an f-string without expressions
-- is rewritten to differs from its text whenever the text has a `%`.
pub with_arguments_percent :
    (quotes template : Bytes)
    → 0 < count b'%' template
    → with_arguments (quotes ++ (format_string template ++ quotes)) []
      ≢ quotes ++ (template ++ quotes)
unfolding with_arguments
with_arguments_percent quotes t h e = absurd (
    omega (
      arith,
      ap length e,
      length-append quotes (format_string t ++ quotes),
      length-append quotes (t ++ quotes),
      length-append (format_string t) quotes,
      length-append t quotes,
      length-format_string t,
    ))
