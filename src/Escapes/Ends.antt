-- ===== src/Escapes/Ends.antt =====
-- parser/stringescape.go: how much a round of DecodeEscape reads, and the fuel of its loop.
use taipan.Prelude.{
  ℕ, zero, suc, ◌+◌, ◌-◌, ◌*◌, ◌≤◌, ◌<◌, leb, ◌==◌, Bool, ◌&&◌, not, ◌≢◌, refl, inl, inr, arith,
  Option, none, some, List, [], ◌∷◌, length, take, drop, length-drop, Bool-cases,
}
use taipan.Prelude.Int.{ℤ}
use taipan.Exceptions.{Result, ok, err, Holds, if-Holds}
use taipan.Escapes.{
  Written, simple_escape, simple_or, is_octal, backslash, has_backslash, more_octal, hex_value,
  decode_hex, long_escape, decode_backslash, decode_one, prefix, and_then, decode_loop,
  decode_escape,
}

-- What is left is no longer than `n`.
abbrev Leaves : ℕ → Result (List Written × List ℕ) → Type 0
Leaves n r = Holds (λ p. length p.1 ≤ n) r

more_octal-length : (n v : ℕ) (cs : List ℕ) → length ((more_octal n v cs).1) ≤ length cs
unfolding more_octal
more_octal-length zero v cs = omega arith
more_octal-length (suc n) v [] = omega arith
more_octal-length (suc n) v (c ∷ cs) = elim (Bool-cases (is_octal c)) [
  | inl e ↦ rw e (omega (arith, more_octal-length n (v * 8 + c - 48) cs))
  | inr e ↦ rw e (omega arith)
]

module _ (parse_int : List ℕ → Option ℤ) where
  hex_value-Leaves :
      (byte_mode : Bool) (n : ℕ) (o : Option ℤ) (cs : List ℕ)
      → length cs ≤ n
      → Leaves n (hex_value parse_int byte_mode o cs)
  hex_value-Leaves byte_mode n none cs l = tt
  hex_value-Leaves byte_mode n (some v) cs l = l

  decode_hex-Leaves :
      (byte_mode : Bool) (size : ℕ) (cs : List ℕ)
      → Leaves (length cs) (decode_hex parse_int byte_mode size cs)
  unfolding decode_hex
  decode_hex-Leaves byte_mode size cs =
      if-Holds (λ p. length p.1 ≤ length cs) (leb size (length cs)) _ _
        (λ e.
          hex_value-Leaves byte_mode (length cs) (parse_int (take size cs)) (drop size cs)
            (omega (arith, length-drop size cs)))
        (λ e. tt)

  Leaves-le : (m n : ℕ) (r : Result (List Written × List ℕ)) → m ≤ n → Leaves m r → Leaves n r
  Leaves-le m n (err e) l h = tt
  Leaves-le m n (ok p) l h = omega arith

  long_escape-Leaves :
      (byte_mode : Bool) (c : ℕ) (cs : List ℕ)
      → Leaves (suc (length cs)) (long_escape parse_int byte_mode c cs)
  unfolding long_escape
  long_escape-Leaves byte_mode c cs =
      let P : List Written × List ℕ → Type 0 = λ p. length p.1 ≤ suc (length cs) in
      if-Holds P (is_octal c) _ _ (λ e. omega (arith, more_octal-length 2 (c - 48) cs))
        (λ e.
          if-Holds P (c == 120) _ _
            (λ e. Leaves-le _ _ _ (omega arith) (decode_hex-Leaves byte_mode 2 cs))
            (λ e.
              if-Holds P ((c == 117) && not byte_mode) _ _
                (λ e. Leaves-le _ _ _ (omega arith) (decode_hex-Leaves byte_mode 4 cs))
                (λ e.
                  if-Holds P ((c == 85) && not byte_mode) _ _
                    (λ e. Leaves-le _ _ _ (omega arith) (decode_hex-Leaves byte_mode 8 cs))
                    (λ e. omega arith))))

  simple_or-Leaves :
      (o : Option (List Written)) (n : ℕ) (cs : List ℕ) (long : Result (List Written × List ℕ))
      → length cs ≤ n
      → Leaves n long
      → Leaves n (simple_or o cs long)
  simple_or-Leaves none n cs long l h = h
  simple_or-Leaves (some w) n cs long l h = l

  decode_backslash-Leaves :
      (byte_mode : Bool) (cs : List ℕ)
      → Leaves (length cs) (decode_backslash parse_int byte_mode cs)
  unfolding decode_backslash
  decode_backslash-Leaves byte_mode [] = tt
  decode_backslash-Leaves byte_mode (c ∷ cs) =
      simple_or-Leaves (simple_escape c) (suc (length cs)) cs (long_escape parse_int byte_mode c cs)
        (omega arith) (long_escape-Leaves byte_mode c cs)

  decode_one-Leaves :
      (byte_mode : Bool) (c : ℕ) (cs : List ℕ)
      → Leaves (length cs) (decode_one parse_int byte_mode c cs)
  unfolding decode_one
  decode_one-Leaves byte_mode c cs =
      if-Holds (λ p. length p.1 ≤ length cs) (c == backslash) _ _
        (λ e. decode_backslash-Leaves byte_mode cs) (λ e. omega arith)

  prefix-ends :
      (w : List Written) (r : Option (Result (List Written))) → r ≢ none → prefix w r ≢ none
  prefix-ends w none h k = h refl
  prefix-ends w (some (ok out)) h k = cc
  prefix-ends w (some (err e)) h k = cc

  and_then-ends :
      (n : ℕ) (r : Result (List Written × List ℕ)) (next : List ℕ → Option (Result (List Written)))
      → Leaves n r
      → ((cs : List ℕ) → length cs ≤ n → next cs ≢ none)
      → and_then r next ≢ none
  and_then-ends n (err e) next l f = λ k. cc
  and_then-ends n (ok (w, cs)) next l f = prefix-ends w (next cs) (f cs l)

  decode_loop-ends :
      (fuel : ℕ) (byte_mode : Bool) (cs : List ℕ)
      → length cs < fuel
      → decode_loop parse_int fuel byte_mode cs ≢ none
  unfolding decode_loop
  decode_loop-ends zero byte_mode cs l = elim l [ ]
  decode_loop-ends (suc fuel) byte_mode [] l = λ k. cc
  decode_loop-ends (suc fuel) byte_mode (c ∷ cs) l =
      and_then-ends (length cs) (decode_one parse_int byte_mode c cs) _
        (decode_one-Leaves byte_mode c cs)
        (λ rest m. decode_loop-ends fuel byte_mode rest (omega arith))

  -- Decoding ends for any literal, whatever strconv.ParseInt answers: the fuel is enough.
  pub decode_escape-ends :
      (byte_mode : Bool) (cs : List ℕ) → decode_escape parse_int byte_mode cs ≢ none
  unfolding decode_escape
  decode_escape-ends byte_mode cs = elim (Bool-cases (has_backslash cs)) [
    | inl e ↦ rw e (decode_loop-ends (suc (length cs)) byte_mode cs (omega arith))
    | inr e ↦ rw e (λ k. cc)
  ]
