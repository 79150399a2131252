-- ===== src/FString/Content/Fuel.antt =====
-- fstring_rewrite.go: the fuel of the loops over an f-string's content.
use taipan.Prelude.{
  ℕ, zero, suc, ◌+◌, ◌-◌, ◌<◌, ◌≤◌, ◌≡◌, ◌&&◌, ◌||◌, List, [], ◌∷◌, ◌++◌, ◌==◌, Bytes, length,
  arith, refl, length-append, ap,
}
use taipan.FString.Scan.{Outcome, value, failure, Split, scan_string_literal, is_quote}
use taipan.FString.Scan.Sound.{IsScanned, scan_string_literal-IsScanned, quote_length}
use taipan.FString.Outcome.{Returns, Returns-bind, Returns-if}
use taipan.FString.Content.{
  parse_f_string_expr, parse_f_string_content, finish_expr, is_empty, on_next, placeholder,
}
use taipan.FString.Trim.{trim_space}

-- The rest is shorter by at least one byte, and a suffix of the source.
abbrev pub Shortens : Bytes → Split → Type 0
Shortens src s = (s.0 ++ s.1 ≡ src) × (length s.1 < length src)

quote_length-pos : (c : ℕ) (rest : Bytes) → 0 < quote_length (c ∷ rest)
quote_length-pos c rest = ground arith

IsScanned-Shortens :
    (c : ℕ) (rest : Bytes) (m : Outcome Split)
    → IsScanned (c ∷ rest) m
    → Returns (Shortens (c ∷ rest)) m
IsScanned-Shortens c rest (value (lit, r)) h =
    (h.0, omega (arith, ap length h.0, length-append lit r, quote_length-pos c rest, h.1))
IsScanned-Shortens c rest (failure e) h = tt
IsScanned-Shortens c rest Outcome.out_of_fuel h = h

-- A literal takes at least one byte.
pub scan_string_literal-Shortens :
    (c : ℕ) (rest : Bytes) → Returns (Shortens (c ∷ rest)) (scan_string_literal (c ∷ rest))
scan_string_literal-Shortens c rest =
    IsScanned-Shortens c rest _ (scan_string_literal-IsScanned (c ∷ rest))

pub Returns-on_next {ℓ} :
    {A : Type ℓ} (P : A → Type 0) (last : Outcome A) (next : ℕ → Bytes → Outcome A) (rest : Bytes)
    → Returns P last
    → ((c : ℕ) (r : Bytes) → rest ≡ c ∷ r → Returns P (next c r))
    → Returns P (on_next last next rest)
Returns-on_next P last next [] h k = h
Returns-on_next P last next (c ∷ rest) h k = k c rest refl

-- `Q` is a property that holds of each suffix with the whole.
module _ (Q : Bytes → Type 0) (suffix : (xs ys : Bytes) → Q (xs ++ ys) → Q ys) where
  abbrev pub Left : ℕ → Split → Type 0
  Left n s = (length s.1 < n) × Q s.1

  finish_expr-Returns :
      (expr rest : Bytes) (n : ℕ)
      → length rest < n
      → Q rest
      → Returns (Left n) (finish_expr expr rest)
  unfolding finish_expr
  finish_expr-Returns expr rest n h q = Returns-if _ (is_empty (trim_space expr)) _ _ tt (h, q)

  pub parse_f_string_expr-Returns :
      (fuel depth n : ℕ) (expr rest : Bytes)
      → length rest < fuel
      → length rest < n
      → Q rest
      → Returns (Left n) (parse_f_string_expr fuel depth expr rest)
  unfolding parse_f_string_expr
  parse_f_string_expr-Returns zero depth n expr rest h k q = elim h [ ]
  parse_f_string_expr-Returns (suc fuel) depth n expr [] h k q = tt
  parse_f_string_expr-Returns (suc fuel) depth n expr (ch ∷ rest) h k q =
      let P : Split → Type 0 = Left n in
      let go = λ (d : ℕ) (e r : Bytes) (i : length r ≤ length rest) (j : Q r).
        parse_f_string_expr-Returns fuel d n e r (omega arith) (omega arith) j in
      let on = λ (d : ℕ). go d (expr ++ (ch ∷ [])) rest (omega arith) (suffix (ch ∷ []) rest q) in
      Returns-if P (ch == 92) _ _
        (Returns-on_next P _ _ rest tt (λ c r e.
          go depth (expr ++ (ch ∷ c ∷ [])) r (omega (arith, ap length e))
            (suffix (ch ∷ c ∷ []) r (rw e at q))))
        (Returns-if P (is_quote ch) _ _
          (Returns-bind (Shortens (ch ∷ rest)) P (scan_string_literal (ch ∷ rest)) _
            (scan_string_literal-Shortens ch rest)
            (λ s c. go depth (expr ++ s.0) s.1 (omega (arith, c.1)) (suffix s.0 s.1 (rw c.0 q))))
          (Returns-if P (ch == b'{') _ _ (on (depth + 1)) (
            Returns-if P (ch == b'}') _ _
              (Returns-if P (depth == 0) _ _
                (finish_expr-Returns expr rest n (omega arith) (suffix (ch ∷ []) rest q))
                (on (depth - 1)))
              (Returns-if P ((ch == b':' || ch == b'!') && depth == 0) _ _ tt (on depth)))))

pub parse_f_string_content-Returns :
    (fuel : ℕ) (template : Bytes) (exprs : List Bytes) (content : Bytes)
    → length content < fuel
    → Returns (λ _. Unit) (parse_f_string_content fuel template exprs content)
unfolding parse_f_string_content
parse_f_string_content-Returns zero template exprs content h = elim h [ ]
parse_f_string_content-Returns (suc fuel) template exprs [] h = tt
parse_f_string_content-Returns (suc fuel) template exprs (ch ∷ rest) h =
    let P : Bytes × List Bytes → Type 0 = λ _. Unit in
    let go = λ (t : Bytes) (es : List Bytes) (r : Bytes) (i : length r ≤ length rest).
      parse_f_string_content-Returns fuel t es r (omega arith) in
    let expression =
      Returns-bind (Left (λ _. Unit) (λ _ _ _. tt) (suc (length rest))) P _ _
        (parse_f_string_expr-Returns (λ _. Unit) (λ _ _ _. tt) (suc (length rest)) 0
          (suc (length rest)) [] rest (omega arith) (omega arith) tt)
        (λ s short.
          go (template ++ (placeholder ∷ [])) (exprs ++ (s.0 ∷ [])) s.1 (omega (arith, short.0))) in
    Returns-if P (ch == 92) _ _
      (Returns-on_next P _ _ rest tt (λ c r e. go _ _ r (omega (arith, ap length e))))
      (Returns-if P (ch == b'{') _ _
        (Returns-on_next P _ _ rest expression (λ c r e.
          Returns-if P (c == b'{') _ _ (go _ _ r (omega (arith, ap length e))) expression))
        (Returns-if P (ch == b'}') _ _
          (Returns-on_next P _ _ rest tt
            (λ c r e. Returns-if P (c == b'}') _ _ (go _ _ r (omega (arith, ap length e))) tt))
          (go _ _ rest (omega arith))))
