-- ===== src/FString/Rewrite/Loop.antt =====
-- fstring_rewrite.go: the main loop of `rewriteFStrings`, its fuel and what it copies.
use taipan.Prelude.{
  ℕ, zero, suc, ◌+◌, ◌-◌, ◌<◌, ◌≤◌, ◌≡◌, Bool, false, ◌&&◌, ◌||◌, Option, [], ◌∷◌, ◌++◌, ◌==◌, ltb,
  Bytes, length, arith, refl, length-append, ap, ◌≢◌, none, some, drop, take,
}
use taipan.FString.Scan.{Outcome, value, failure, out_of_fuel, Split, scan_string_literal, is_quote}
use taipan.FString.Scan.Sound.{IsScanned, scan_string_literal-IsScanned, quote_length}
use taipan.FString.Outcome.{Returns, Returns-bind, Returns-if}
use taipan.FString.Content.Fuel.{
  parse_f_string_content-Returns, scan_string_literal-Shortens, Shortens,
}
use taipan.FString.Rewrite.{
  content_of, quote_text, rewrite_f_string_at, scan_comment, emit, rewrite_loop, is_f_string_start,
  rewrite_f_strings, quote_of, last_of,
}

content_of_long :
    (quotes literal : Bytes)
    → length quotes + length quotes ≤ length literal
    → content_of quotes literal
      ≡ value (drop (length quotes) (take (length literal - length quotes) literal))
unfolding content_of
content_of_long quotes literal h = ground arith

length-quote_text : (c : ℕ) (src : Bytes) → length (quote_text (c ∷ src)) ≡ quote_length (c ∷ src)
unfolding quote_text
length-quote_text c src = ground arith

content_of_scanned :
    (c : ℕ) (src : Bytes) (s : Split) (m : Outcome Split)
    → IsScanned (c ∷ src) m
    → m ≡ value s
    → length (quote_text (c ∷ src)) + length (quote_text (c ∷ src)) ≤ length s.0
content_of_scanned c src s (value t) h e = ground (arith, length-quote_text c src)
content_of_scanned c src s (failure x) h e = cc
content_of_scanned c src s out_of_fuel h e = elim h [ ]

-- A scanned literal has room for its opening and closing quotes: the content of an f-string is the
-- slice between them, and the test `contentStart > contentEnd` never refuses one.
pub content_of-scan_string_literal :
    (c : ℕ) (src : Bytes) (s : Split)
    → scan_string_literal (c ∷ src) ≡ value s
    → content_of (quote_text (c ∷ src)) s.0
      ≡ value (
          drop
            (length (quote_text (c ∷ src)))
            (take (length s.0 - length (quote_text (c ∷ src))) s.0))
content_of-scan_string_literal c src s e =
    content_of_long (quote_text (c ∷ src)) s.0
      (content_of_scanned c src s _ (scan_string_literal-IsScanned (c ∷ src)) e)

IsScanned-le :
    (src : Bytes) (m : Outcome Split) → IsScanned src m → Returns (λ s. length s.1 ≤ length src) m
IsScanned-le src (value (lit, r)) h = omega (arith, ap length h.0, length-append lit r)
IsScanned-le src (failure e) h = tt
IsScanned-le src out_of_fuel h = h

content_of-Returns : (quotes literal : Bytes) → Returns (λ _. Unit) (content_of quotes literal)
unfolding content_of
content_of-Returns quotes literal =
    Returns-if _ (ltb (length literal - length quotes) (length quotes)) _ _ tt tt

rewrite_f_string_at-Returns :
    (src : Bytes) → Returns (λ s. length s.1 ≤ length src) (rewrite_f_string_at src)
unfolding rewrite_f_string_at
rewrite_f_string_at-Returns src =
    Returns-bind (λ s. length s.1 ≤ length src) _ (scan_string_literal src) _
      (IsScanned-le src _ (scan_string_literal-IsScanned src))
      λ lit short.
        Returns-bind (λ _. Unit) _ (content_of (quote_text src) lit.0) _
          (content_of-Returns (quote_text src) lit.0)
          λ content _.
            Returns-bind (λ _. Unit) _ _ _
              (parse_f_string_content-Returns (suc (length content)) [] [] content (omega arith))
              λ parsed _. short

scan_comment-append : (src : Bytes) → (scan_comment src).0 ++ (scan_comment src).1 ≡ src
unfolding scan_comment
scan_comment-append [] = refl
scan_comment-append (c ∷ cs) = ground (arith, scan_comment-append cs)

scan_comment-le : (src : Bytes) → length (scan_comment src).1 ≤ length src
scan_comment-le src = omega (
  arith,
  ap length (scan_comment-append src),
  length-append (scan_comment src).0 (scan_comment src).1,
)

emit-Returns :
    (text : Bytes) (P Q : Bytes → Type 0) (m : Outcome Bytes)
    → Returns P m
    → ((out : Bytes) → P out → Q (text ++ out))
    → Returns Q (emit text m)
emit-Returns text P Q m h k = Returns-bind P Q m _ h k

rewrite_loop-Returns :
    (fuel : ℕ) (prev : Option ℕ) (src : Bytes)
    → length src < fuel
    → Returns (λ _. Unit) (rewrite_loop fuel prev src)
unfolding rewrite_loop
rewrite_loop-Returns zero prev src h = elim h [ ]
rewrite_loop-Returns (suc fuel) prev [] h = tt
rewrite_loop-Returns (suc fuel) prev (ch ∷ rest) h =
    let P : Bytes → Type 0 = λ _. Unit in
    let go = λ (text : Bytes) (p : Option ℕ) (r : Bytes) (i : length r ≤ length rest).
      emit-Returns text P P _ (rewrite_loop-Returns fuel p r (omega arith)) (λ out _. tt) in
    Returns-if P (is_f_string_start prev (ch ∷ rest)) _ _
      (Returns-bind (λ s. length s.1 ≤ length rest) P (rewrite_f_string_at rest) _
        (rewrite_f_string_at-Returns rest) (λ s i. go s.0 (some (quote_of rest)) s.1 i))
      (Returns-if P (ch == b'#') _ _
        (go (ch ∷ (scan_comment rest).0) (last_of ch (scan_comment rest).0) (scan_comment rest).1
          (scan_comment-le rest))
        (Returns-if P (is_quote ch) _ _
          (Returns-bind (Shortens (ch ∷ rest)) P (scan_string_literal (ch ∷ rest)) _
            (scan_string_literal-Shortens ch rest) (λ s short. go s.0 (some ch) s.1 (omega arith)))
          (go (ch ∷ []) (some ch) rest (omega arith))))

Returns-ne : (m : Outcome Bytes) → Returns (λ _. Unit) m → m ≢ out_of_fuel
Returns-ne (value a) h e = cc
Returns-ne (failure x) h e = cc
Returns-ne out_of_fuel h e = elim h [ ]

-- Rewriting always ends: every source is rewritten or refused with an exception, since the fuel
-- that is given, the length of the source plus one, is enough for every loop.
pub rewrite_f_strings-ends : (src : Bytes) → rewrite_f_strings src ≢ out_of_fuel
unfolding rewrite_f_strings
rewrite_f_strings-ends src =
    Returns-ne _ (rewrite_loop-Returns (suc (length src)) none src (omega arith))

abbrev starts_with_quote : Bytes → Bool
starts_with_quote [] = false
starts_with_quote (q ∷ rest) = is_quote q

or-false_right : (a b : Bool) → (a || b) ≡ false → b ≡ false
or-false_right a b h = ground arith

-- An `f` or `F` directly in front of a quote.
unfoldable pub has_f_quote : Bytes → Bool
has_f_quote [] = false
has_f_quote (f ∷ rest) = (f == b'f' || f == b'F') && starts_with_quote rest || has_f_quote rest

not_f_string_start :
    (prev : Option ℕ) (src : Bytes) → has_f_quote src ≡ false → is_f_string_start prev src ≡ false
unfolding has_f_quote is_f_string_start
not_f_string_start prev [] h = refl
not_f_string_start prev (f ∷ []) h = refl
not_f_string_start prev (f ∷ q ∷ rest) h = ground arith

has_f_quote-append : (xs ys : Bytes) → has_f_quote (xs ++ ys) ≡ false → has_f_quote ys ≡ false
unfolding has_f_quote
has_f_quote-append [] ys h = h
has_f_quote-append (x ∷ xs) ys h = has_f_quote-append xs ys (or-false_right _ _ h)

-- What the loop does with a split of its source, in a source without f-strings.
emit_split :
    (fuel : ℕ) (prev : Option ℕ) (src : Bytes) (s : Split)
    → s.0 ++ s.1 ≡ src
    → Returns (λ out. out ≡ s.1) (rewrite_loop fuel prev s.1)
    → Returns (λ out. out ≡ src) (emit s.0 (rewrite_loop fuel prev s.1))
emit_split fuel prev src s e h =
    emit-Returns s.0 (λ out. out ≡ s.1) (λ out. out ≡ src) _ h (λ out i. rw i e)

rewrite_loop-Identity :
    (fuel : ℕ) (prev : Option ℕ) (src : Bytes)
    → length src < fuel
    → has_f_quote src ≡ false
    → Returns (λ out. out ≡ src) (rewrite_loop fuel prev src)
unfolding rewrite_loop
rewrite_loop-Identity zero prev src h k = elim h [ ]
rewrite_loop-Identity (suc fuel) prev [] h k = refl
rewrite_loop-Identity (suc fuel) prev (ch ∷ rest) h k =
    let P : Bytes → Type 0 = λ out. out ≡ ch ∷ rest in
    let go =
      λ (p : Option ℕ) (s : Split) (e : s.0 ++ s.1 ≡ ch ∷ rest)
          (i : length s.1 < suc (length rest)).
        emit_split fuel p (ch ∷ rest) s e
          (rewrite_loop-Identity fuel p s.1 (omega arith) (has_f_quote-append s.0 s.1 (rw e k))) in
    rw (not_f_string_start prev (ch ∷ rest) k) (
      Returns-if P (ch == b'#') _ _
        (go (last_of ch (scan_comment rest).0) (ch ∷ (scan_comment rest).0, (scan_comment rest).1)
          (ap (◌∷◌ ch) (scan_comment-append rest)) (omega (arith, scan_comment-le rest)))
        (Returns-if P (is_quote ch) _ _
          (Returns-bind (Shortens (ch ∷ rest)) P (scan_string_literal (ch ∷ rest)) _
            (scan_string_literal-Shortens ch rest) (λ s c. go (some ch) s c.0 c.1))
          (go (some ch) (ch ∷ [], rest) refl (omega arith))))

-- A source in which no `f` or `F` stands directly in front of a quote comes back unchanged, if it
-- is not refused for an unterminated literal.
pub rewrite_f_strings_identity :
    (src : Bytes) {out : Bytes}
    → has_f_quote src ≡ false
    → rewrite_f_strings src ≡ value out
    → out ≡ src
unfolding rewrite_f_strings
rewrite_f_strings_identity src h e =
    rw e at (rewrite_loop-Identity (suc (length src)) none src (omega arith) h)
