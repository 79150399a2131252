-- ===== src/FString/Scan/Sound.antt =====
-- fstring_rewrite.go: what `scanStringLiteral` returns.
use taipan.Prelude.{
  ℕ, ◌+◌, ◌≤◌, ◌≡◌, Bool, true, false, ◌&&◌, not, Option, none, some, [], ◌∷◌, ◌++◌, ◌==◌,
  if◌then◌else◌, Bytes, length, arith, refl, Bool-cases, inl, inr, length-append, ap, ◌∙◌,
  append_assoc,
}
use taipan.FString.Scan.{
  Outcome, value, failure, out_of_fuel, Split, scan_string_literal, scan_body, prepend,
  close_triple, opens_triple, behind_two, closed, is_quote,
}

-- A split of `src`, when there is one, puts `src` back together and has at least `n` bytes in front.
abbrev pub Splits : ℕ → Bytes → Option Split → Type 0
Splits n src none = Unit
Splits n src (some (front, rest)) = (front ++ rest ≡ src) × (n ≤ length front)

abbrev closing_length : Bool → ℕ
closing_length true = 3
closing_length false = 1

prepend-Splits :
    (n : ℕ) (p src : Bytes) (s : Option Split) → Splits n src s → Splits n (p ++ src) (prepend p s)
prepend-Splits n p src none h = tt
prepend-Splits n p src (some (q, rest)) h =
    (append_assoc p q rest ∙ ap (◌++◌ p) h.0, omega (arith, length-append p q, h.1))

if-Splits :
    (n : ℕ) (src : Bytes) (b : Bool) (x y : Option Split)
    → Splits n src x
    → Splits n src y
    → Splits n src (if b then x else y)
if-Splits n src true x y hx hy = hx
if-Splits n src false x y hx hy = hy

close_triple-Splits :
    (quote c d : ℕ) (rest : Bytes) → Splits 3 (c ∷ d ∷ rest) (close_triple quote c d rest)
unfolding close_triple
close_triple-Splits quote c d [] = tt
close_triple-Splits quote c d (e ∷ rest) =
    if-Splits 3 _ (c == quote && d == quote && e == quote) _ none (refl, omega arith) tt

or_else-Splits :
    (n : ℕ) (src : Bytes) (x y : Option Split)
    → Splits n src x
    → Splits n src y
    → Splits n src (elim x [ some s ↦ some s | none ↦ y ])
or_else-Splits n src none y hx hy = hy
or_else-Splits n src (some s) y hx hy = hx

scan_body-Splits :
    (triple : Bool) (quote : ℕ) (src : Bytes)
    → Splits (closing_length triple) src (scan_body triple quote src)
unfolding scan_body
scan_body-Splits triple quote [] = tt
scan_body-Splits true quote (c ∷ []) = ground arith
scan_body-Splits false quote (c ∷ []) =
    if-Splits 1 _ (c == 92) none _ tt (if-Splits 1 _ (c == quote) _ none (refl, omega arith) tt)
scan_body-Splits true quote (c ∷ d ∷ rest) =
    if-Splits 3 _ (c == 92) _ _
      (prepend-Splits 3 (c ∷ d ∷ []) rest _ (scan_body-Splits true quote rest))
      (or_else-Splits 3 _ (close_triple quote c d rest) _ (close_triple-Splits quote c d rest)
        (prepend-Splits 3 (c ∷ []) (d ∷ rest) _ (scan_body-Splits true quote (d ∷ rest))))
scan_body-Splits false quote (c ∷ d ∷ rest) =
    if-Splits 1 _ (c == 92) _ _
      (prepend-Splits 1 (c ∷ d ∷ []) rest _ (scan_body-Splits false quote rest))
      (if-Splits 1 _ (c == quote) _ _ (refl, omega arith)
        (prepend-Splits 1 (c ∷ []) (d ∷ rest) _ (scan_body-Splits false quote (d ∷ rest))))

-- `quoteLen`
abbrev pub quote_length : Bytes → ℕ
quote_length [] = 0
quote_length (q ∷ rest) = if opens_triple q rest then 3 else 1

-- What a scan of `src` returned: a literal that has room for two runs of quotes, and the rest.
abbrev pub IsScanned : Bytes → Outcome Split → Type 0
IsScanned src (value (literal, rest)) =
    (literal ++ rest ≡ src) × (quote_length src + quote_length src ≤ length literal)
IsScanned src (failure e) = Unit
IsScanned src out_of_fuel = ⊥

if-IsScanned :
    (src : Bytes) (b : Bool) (x y : Outcome Split)
    → IsScanned src x
    → IsScanned src y
    → IsScanned src (if b then x else y)
if-IsScanned src true x y hx hy = hx
if-IsScanned src false x y hx hy = hy

closed_one :
    (q : ℕ) (rest : Bytes) (s : Option Split)
    → opens_triple q rest ≡ false
    → Splits 1 rest s
    → IsScanned (q ∷ rest) (closed (q ∷ []) s)
closed_one q rest none single h = tt
closed_one q rest (some (body, r)) single h = rw single (ap (◌∷◌ q) h.0, omega (arith, h.1))

closed_three :
    (q : ℕ) (rest : Bytes) (s : Option Split)
    → opens_triple q rest ≡ true
    → Splits 3 (behind_two rest) s
    → IsScanned (q ∷ rest) (closed (q ∷ q ∷ q ∷ []) s)
unfolding opens_triple
closed_three q [] s triple h = cc
closed_three q (a ∷ []) s triple h = cc
closed_three q (a ∷ b ∷ r) none triple h = tt
closed_three q (a ∷ b ∷ r) (some (body, r')) triple h =
    (ground arith, rw triple (omega (arith, h.1)))

-- When `scanStringLiteral` returns, the literal and the rest together are the source, the literal
-- is at least as long as its opening and closing quotes together, and no fuel is involved.
pub scan_string_literal-IsScanned : (src : Bytes) → IsScanned src (scan_string_literal src)
unfolding scan_string_literal
scan_string_literal-IsScanned [] = tt
scan_string_literal-IsScanned (q ∷ rest) =
    if-IsScanned _ (not (is_quote q)) _ _ tt (elim (Bool-cases (opens_triple q rest)) [
      | inl triple ↦
          rw triple (closed_three q rest _ triple (scan_body-Splits true q (behind_two rest)))
      | inr single ↦ rw single (closed_one q rest _ single (scan_body-Splits false q rest))
    ])
