-- ===== src/FString/Content/Placeholders.antt =====
-- fstring_rewrite.go: the placeholders and the expressions of an f-string.
use taipan.Prelude.{
  ℕ, zero, suc, ◌+◌, ◌<◌, ◌≤◌, ◌≡◌, List, [], ◌∷◌, ◌++◌, ◌==◌, if◌then◌else◌, Bytes, length, arith,
  refl, length-append, ap,
}
use taipan.FString.Scan.{Outcome, value}
use taipan.FString.Outcome.{Returns, Returns-bind, Returns-if}
use taipan.FString.Content.{parse_f_string_content, placeholder}
use taipan.FString.Content.Fuel.{Left, parse_f_string_expr-Returns, Returns-on_next}

abbrev pub count : ℕ → Bytes → ℕ
count b [] = 0
count b (c ∷ cs) = (if c == b then 1 else 0) + count b cs

count-append : (b : ℕ) (xs ys : Bytes) → count b (xs ++ ys) ≡ count b xs + count b ys
count-append b [] ys = omega arith
count-append b (x ∷ xs) ys = omega (arith, count-append b xs ys)

-- As many placeholders as expressions.
abbrev Balanced : Bytes × List Bytes → Type 0
Balanced p = count placeholder p.0 ≡ length p.1

abbrev NoNul : Bytes → Type 0
NoNul s = count placeholder s ≡ 0

NoNul-suffix : (xs ys : Bytes) → NoNul (xs ++ ys) → NoNul ys
NoNul-suffix xs ys h = omega (arith, count-append placeholder xs ys)

parse_f_string_content-Balanced :
    (fuel : ℕ) (template : Bytes) (exprs : List Bytes) (content : Bytes)
    → length content < fuel
    → NoNul content
    → Balanced (template, exprs)
    → Returns Balanced (parse_f_string_content fuel template exprs content)
unfolding parse_f_string_content
parse_f_string_content-Balanced zero template exprs content h z b = elim h [ ]
parse_f_string_content-Balanced (suc fuel) template exprs [] h z b = b
parse_f_string_content-Balanced (suc fuel) template exprs (ch ∷ rest) h z b =
    let P = Balanced in
    let left : NoNul rest = omega arith in
    let keep = λ (text r : Bytes) (i : length r ≤ length rest) (j : NoNul r) (k : NoNul text).
      parse_f_string_content-Balanced fuel (template ++ text) exprs r (omega arith) j
        (omega (arith, count-append placeholder template text)) in
    let one = λ (r : Bytes) (i : length r ≤ length rest) (j : NoNul r) (k : NoNul (ch ∷ [])).
      keep (ch ∷ []) r i j k in
    let expression =
      Returns-bind (Left NoNul NoNul-suffix (suc (length rest))) P _ _
        (parse_f_string_expr-Returns NoNul NoNul-suffix (suc (length rest)) 0 (suc (length rest)) []
          rest (omega arith) (omega arith) left)
        (λ s short.
          parse_f_string_content-Balanced fuel (template ++ (placeholder ∷ []))
            (exprs ++ (s.0 ∷ [])) s.1 (omega (arith, short.0)) short.1
            (omega (
              arith,
              count-append placeholder template (placeholder ∷ []),
              length-append exprs (s.0 ∷ []),
            ))) in
    Returns-if P (ch == 92) _ _
      (Returns-on_next P _ _ rest tt (λ c r e.
        keep (ch ∷ c ∷ []) r (omega (arith, ap length e)) (omega (arith, ap (count placeholder) e))
          (omega (arith, ap (count placeholder) e))))
      (Returns-if P (ch == b'{') _ _
        (Returns-on_next P _ _ rest expression (λ c r e.
          Returns-if P (c == b'{') _ _
            (keep (b'{' ∷ []) r (omega (arith, ap length e))
              (omega (arith, ap (count placeholder) e)) refl)
            expression))
        (Returns-if P (ch == b'}') _ _
          (Returns-on_next P _ _ rest tt (λ c r e.
            Returns-if P (c == b'}') _ _
              (keep (b'}' ∷ []) r (omega (arith, ap length e))
                (omega (arith, ap (count placeholder) e)) refl)
              tt))
          (keep (ch ∷ []) rest (omega arith) left (omega arith))))

Returns-eq : {A : Type 0} (P : A → Type 0) (m : Outcome A) {a : A} → Returns P m → m ≡ value a → P a
Returns-eq P m h e = rw e at h

-- In an f-string's content without NUL bytes, the template that parsing returns has exactly one
-- placeholder for each expression.
pub placeholders-match :
    (content : Bytes) {p : Bytes × List Bytes}
    → count placeholder content ≡ 0
    → parse_f_string_content (suc (length content)) [] [] content ≡ value p
    → count placeholder p.0 ≡ length p.1
placeholders-match content z e =
    Returns-eq Balanced _
      (parse_f_string_content-Balanced (suc (length content)) [] [] content (omega arith) z refl) e
