-- ===== src/Escapes/Decode.antt =====
-- parser/stringescape.go: DecodeEscape on a sequence of escape sequences.
use taipan.Prelude.{
  ℕ, zero, suc, ◌+◌, ◌-◌, ◌*◌, ◌≤◌, ◌<◌, leb, ◌==◌, Bool, true, false, ◌&&◌, ◌≡◌, ◌≢◌, ◌⊎◌, refl,
  sym, ◌∙◌, inl, inr, ap, arith, Option, none, some, List, [], ◌∷◌, ◌++◌, map, length, take, drop,
  length-append, Bool-cases, or_false,
}
use taipan.Prelude.Int.{ℤ, pos}
use taipan.Exceptions.{ok}
use taipan.Escapes.{
  Written, rune, plain, write, simple_escape, is_octal, backslash, has_backslash, more_octal,
  decode_hex, long_escape, decode_backslash, decode_one, decode_loop, decode_escape,
}
use taipan.Escapes.Pieces.{
  Piece, character, simple, octal, hex_2, hex_4, hex_8, unknown, spelling, meaning, IsUnknown,
  IsSimple, line_continuation, escaped_backslash, single_quote, double_quote, bell_a, backspace_b,
  tab_t, newline_n, vertical_tab_v, form_feed_f, carriage_return_r, IsHex, IsValid, AllValid, text,
  meanings,
}

take-append : (ds cs : List ℕ) → take (length ds) (ds ++ cs) ≡ ds
take-append [] cs = refl
take-append (d ∷ ds) cs = ap (λ xs. d ∷ xs) (take-append ds cs)

drop-append : (ds cs : List ℕ) → drop (length ds) (ds ++ cs) ≡ cs
drop-append [] cs = refl
drop-append (d ∷ ds) cs = drop-append ds cs

three_octal :
    (a b c : ℕ) (cs : List ℕ)
    → a < 8
    → b < 8
    → c < 8
    → more_octal 2 a ((48 + b) ∷ (48 + c) ∷ cs) ≡ (64 * a + 8 * b + c, cs)
unfolding more_octal
three_octal a b c cs h k l = ground arith

leb_of_le : (m n : ℕ) → m ≤ n → leb m n ≡ true
leb_of_le m n h = ground arith

eqb_of_ne : (m n : ℕ) → m ≢ n → (m == n) ≡ false
eqb_of_ne m n h = ground arith

digit_not_simple : (a : ℕ) → a < 8 → simple_escape (48 + a) ≡ none
unfolding simple_escape
digit_not_simple a h = ground arith

digit_octal : (a : ℕ) → a < 8 → is_octal (48 + a) ≡ true
digit_octal a h = ground arith

-- The table of the source gives what each simple escape stands for, and has no other character.
simple_escape_of : {c : ℕ} {w : List Written} → IsSimple c w → simple_escape c ≡ some w
unfolding simple_escape
simple_escape_of line_continuation = refl
simple_escape_of escaped_backslash = refl
simple_escape_of single_quote = refl
simple_escape_of double_quote = refl
simple_escape_of bell_a = refl
simple_escape_of backspace_b = refl
simple_escape_of tab_t = refl
simple_escape_of newline_n = refl
simple_escape_of vertical_tab_v = refl
simple_escape_of form_feed_f = refl
simple_escape_of carriage_return_r = refl

no_simple_escape : (byte_mode : Bool) (c : ℕ) → IsUnknown byte_mode c → simple_escape c ≡ none
unfolding simple_escape
no_simple_escape byte_mode c h = ground (arith, h.0)

not_octal : (c : ℕ) → (c < 48) ⊎ (55 < c) → is_octal c ≡ false
not_octal c h = ground arith

and_false : (b : Bool) → (b && false) ≡ false
and_false true = refl
and_false false = refl

module _ (parse_int : List ℕ → Option ℤ) where
  hex_ok :
      (byte_mode : Bool) (size : ℕ) (ds cs : List ℕ) (v : ℤ)
      → IsHex parse_int size ds v
      → decode_hex parse_int byte_mode size (ds ++ cs) ≡ ok (write byte_mode v ∷ [], cs)
  unfolding decode_hex
  hex_ok byte_mode size ds cs v (l, e) =
      rw
        (
          sym l,
          leb_of_le (length ds) (length (ds ++ cs)) (omega (arith, length-append ds cs)),
          take-append ds cs,
          drop-append ds cs,
          e,
        )
        refl

  octal_ok :
      (byte_mode : Bool) (a b c : ℕ) (cs : List ℕ)
      → a < 8
      → b < 8
      → c < 8
      → decode_backslash parse_int byte_mode ((48 + a) ∷ (48 + b) ∷ (48 + c) ∷ cs)
        ≡ ok (write byte_mode (pos (64 * a + 8 * b + c)) ∷ [], cs)
  unfolding decode_backslash long_escape
  octal_ok byte_mode a b c cs h k l =
      let value : 48 + a - 48 ≡ a = omega arith in
      rw (digit_not_simple a h, digit_octal a h, value, three_octal a b c cs h k l) refl

  unknown_ok :
      (byte_mode : Bool) (c : ℕ) (cs : List ℕ)
      → IsUnknown byte_mode c
      → decode_backslash parse_int byte_mode (c ∷ cs) ≡ ok (plain backslash ∷ [], c ∷ cs)
  unfolding decode_backslash long_escape
  unknown_ok byte_mode c cs (d, o, g, inl t) =
      let e = no_simple_escape byte_mode c (d, o, g, inl t) in
      rw (e, not_octal c o, eqb_of_ne c 120 g, t, and_false (c == 117), and_false (c == 85)) refl
  unknown_ok byte_mode c cs (d, o, g, inr (m, n)) =
      let e = no_simple_escape byte_mode c (d, o, g, inr (m, n)) in
      rw (e, not_octal c o, eqb_of_ne c 120 g, eqb_of_ne c 117 m, eqb_of_ne c 85 n) refl

  -- The first round on a piece, and the character that an unrecognised escape leaves.
  one_backslash :
      (byte_mode : Bool) (cs : List ℕ)
      → decode_one parse_int byte_mode backslash cs ≡ decode_backslash parse_int byte_mode cs
  unfolding decode_one
  one_backslash byte_mode cs = refl

  one_character :
      (byte_mode : Bool) (c : ℕ) (cs : List ℕ)
      → c ≢ backslash
      → decode_one parse_int byte_mode c cs ≡ ok (plain c ∷ [], cs)
  unfolding decode_one
  one_character byte_mode c cs ne = rw (eqb_of_ne c backslash ne) refl

  loop_step :
      (fuel : ℕ) (byte_mode : Bool) (c : ℕ) (cs rest : List ℕ) (w out : List Written)
      → decode_one parse_int byte_mode c cs ≡ ok (w, rest)
      → decode_loop parse_int fuel byte_mode rest ≡ some (ok out)
      → decode_loop parse_int (suc fuel) byte_mode (c ∷ cs) ≡ some (ok (w ++ out))
  unfolding decode_loop
  loop_step fuel byte_mode c cs rest w out h k = rw (h, k) refl

  x_ok :
      (byte_mode : Bool) (cs : List ℕ)
      → decode_backslash parse_int byte_mode (120 ∷ cs) ≡ decode_hex parse_int byte_mode 2 cs
  unfolding decode_backslash long_escape simple_escape
  x_ok byte_mode cs = refl

  u_ok :
      (cs : List ℕ) → decode_backslash parse_int false (117 ∷ cs) ≡ decode_hex parse_int false 4 cs
  unfolding decode_backslash long_escape simple_escape
  u_ok cs = refl

  big_u_ok :
      (cs : List ℕ) → decode_backslash parse_int false (85 ∷ cs) ≡ decode_hex parse_int false 8 cs
  unfolding decode_backslash long_escape simple_escape
  big_u_ok cs = refl

  simple_ok :
      (byte_mode : Bool) (c : ℕ) (w : List Written) (cs : List ℕ)
      → simple_escape c ≡ some w
      → decode_backslash parse_int byte_mode (c ∷ cs) ≡ ok (w, cs)
  unfolding decode_backslash
  simple_ok byte_mode c w cs e = rw e refl

  unknown_ne : (c : ℕ) → simple_escape c ≡ none → c ≢ backslash
  unfolding simple_escape
  unknown_ne c h e = ground (arith, h, e)

  -- A loop that decodes the runes behind a piece decodes the piece before them.
  module _ (byte_mode : Bool) (cs : List ℕ) (out : List Written)
      (next : (f : ℕ) → length cs < f → decode_loop parse_int f byte_mode cs ≡ some (ok out)) where
    backslash_loop :
        (fuel : ℕ) (xs : List ℕ) (w : List Written)
        → decode_backslash parse_int byte_mode xs ≡ ok (w, cs)
        → length cs < fuel
        → decode_loop parse_int (suc fuel) byte_mode (backslash ∷ xs) ≡ some (ok (w ++ out))
    backslash_loop fuel xs w e l =
        loop_step fuel byte_mode backslash xs cs w out (one_backslash byte_mode xs ∙ e)
          (next fuel l)

    piece_loop :
        (fuel : ℕ) (p : Piece)
        → IsValid parse_int byte_mode p
        → length (spelling p ++ cs) < suc fuel
        → decode_loop parse_int (suc fuel) byte_mode (spelling p ++ cs)
          ≡ some (ok (meaning byte_mode p ++ out))
    unfolding spelling meaning
    piece_loop fuel (character c) v l =
        loop_step fuel byte_mode c cs cs (plain c ∷ []) out (one_character byte_mode c cs v)
          (next fuel (omega (arith, l)))
    piece_loop fuel (simple c w) v l =
        backslash_loop fuel (c ∷ cs) w (simple_ok byte_mode c w cs (simple_escape_of v))
          (omega (arith, l))
    piece_loop fuel (octal a b c) (h, k, m) l =
        backslash_loop fuel _ _ (octal_ok byte_mode a b c cs h k m) (omega (arith, l))
    piece_loop fuel (hex_2 ds v) h l =
        backslash_loop fuel _ _ (x_ok byte_mode (ds ++ cs) ∙ hex_ok byte_mode 2 ds cs v h)
          (omega (arith, l, length-append ds cs))
    piece_loop fuel (hex_4 ds v) (t, h) l =
        backslash_loop fuel (117 ∷ (ds ++ cs)) (rune v ∷ [])
          (rw t (u_ok (ds ++ cs) ∙ hex_ok false 4 ds cs v h))
          (omega (arith, l, length-append ds cs))
    piece_loop fuel (hex_8 ds v) (t, h) l =
        backslash_loop fuel (85 ∷ (ds ++ cs)) (rune v ∷ [])
          (rw t (big_u_ok (ds ++ cs) ∙ hex_ok false 8 ds cs v h))
          (omega (arith, l, length-append ds cs))
    piece_loop zero (unknown c) v l = absurd (omega (arith, l))
    piece_loop (suc fuel) (unknown c) v l =
        loop_step (suc fuel) byte_mode backslash (c ∷ cs) (c ∷ cs) (plain backslash ∷ [])
          (plain c ∷ out) (one_backslash byte_mode (c ∷ cs) ∙ unknown_ok byte_mode c cs v)
          (loop_step fuel byte_mode c cs cs (plain c ∷ []) out
            (one_character byte_mode c cs (unknown_ne c (no_simple_escape byte_mode c v)))
            (next fuel (omega (arith, l))))

  pub decode_loop-text :
      (byte_mode : Bool) (ps : List Piece) (fuel : ℕ)
      → AllValid parse_int byte_mode ps
      → length (text ps) < fuel
      → decode_loop parse_int fuel byte_mode (text ps) ≡ some (ok (meanings byte_mode ps))
  unfolding decode_loop
  decode_loop-text byte_mode ps zero v l = elim l [ ]
  decode_loop-text byte_mode [] (suc fuel) v l = refl
  decode_loop-text byte_mode (p ∷ ps) (suc fuel) v l =
      piece_loop byte_mode (text ps) (meanings byte_mode ps)
        (λ f k. decode_loop-text byte_mode ps f v.1 k) fuel p v.0 l

  -- Where there is no backslash, the loop writes the runes.
  decode_loop-plain :
      (byte_mode : Bool) (cs : List ℕ) (fuel : ℕ)
      → has_backslash cs ≡ false
      → length cs < fuel
      → decode_loop parse_int fuel byte_mode cs ≡ some (ok (map plain cs))
  unfolding decode_loop has_backslash
  decode_loop-plain byte_mode cs zero h l = elim l [ ]
  decode_loop-plain byte_mode [] (suc fuel) h l = refl
  decode_loop-plain byte_mode (c ∷ cs) (suc fuel) h l =
      let (e, rest) = or_false (c == backslash) (has_backslash cs) h in
      let ne : c ≢ backslash = λ k. ground (arith, e, k) in
      loop_step fuel byte_mode c cs cs (plain c ∷ []) (map plain cs)
        (one_character byte_mode c cs ne) (decode_loop-plain byte_mode cs fuel rest (omega arith))

  -- A literal that is a sequence of characters other than the backslash and of escape sequences is
  -- decoded to what these stand for, one after the other. The escapes are the simple ones of
  -- `IsSimple`, octal ones of three digits, hexadecimal ones whose digits strconv.ParseInt reads as the value, of
  -- which \u and \U are not for bytes, and unrecognised ones, which stand for themselves.
  pub decode_escape-text :
      (byte_mode : Bool) (ps : List Piece)
      → AllValid parse_int byte_mode ps
      → decode_escape parse_int byte_mode (text ps) ≡ some (ok (meanings byte_mode ps))
  unfolding decode_escape
  decode_escape-text byte_mode ps v =
      let run = decode_loop-text byte_mode ps (suc (length (text ps))) v (omega arith) in
      elim (Bool-cases (has_backslash (text ps))) [
        | inl e ↦ rw e run
        | inr e ↦ rw e (
            sym (decode_loop-plain byte_mode (text ps) (suc (length (text ps))) e (omega arith))
            ∙ run)
      ]
