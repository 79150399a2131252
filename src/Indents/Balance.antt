-- ===== src/Indents/Balance.antt =====
-- parser/lexer.go: the INDENT and DEDENT tokens of a file.
use taipan.Prelude.{
  ℕ, zero, suc, ◌+◌, ◌-◌, Bool, ◌≡◌, refl, ◌∙◌, ap, inl, inr, arith, Option, none, some, List, [],
  ◌∷◌, ◌++◌, length, replicate, append_assoc,
}
use taipan.Exceptions.{Result, ok, err}
use taipan.Indents.{
  Token, indent, dedent, endmarker, other, Lexer, lexer, new_lex, count_indent, Answer, continue,
  token, error, panic, check_indent, queue_dedents, Line, blank, line, returned, with_indent,
  line_start, prepend_tokens, then_lex, lex_lines,
}
use taipan.Indents.Stack.{IsStack, Keeps, check_indent-Keeps}

-- The depth behind tokens, from a depth: none, where a DEDENT has no INDENT before it.
unfoldable pub depth_after : ℕ → List Token → Option ℕ
depth_after n [] = some n
depth_after n (indent ∷ ts) = depth_after (suc n) ts
depth_after n (dedent ∷ ts) = elim n [ zero ↦ none | suc m ↦ depth_after m ts ]
depth_after n (endmarker ∷ ts) = depth_after n ts
depth_after n (other t ∷ ts) = depth_after n ts

abbrev Balances : ℕ → Option (List Token) → Type 0
Balances n none = Unit
Balances n (some ts) = depth_after n ts ≡ some 0

after_dedents :
    (d n : ℕ) (ts : List Token) → depth_after (d + n) (replicate d dedent ++ ts) ≡ depth_after n ts
unfolding depth_after
after_dedents zero n ts = let e : 0 + n ≡ n = omega arith in rw e refl
after_dedents (suc d) n ts =
    let e : suc d + n ≡ suc (d + n) = omega arith in rw e (after_dedents d n ts)

Balances-prepend :
    (n m : ℕ) (ts : List Token) (r : Option (List Token))
    → ((us : List Token) → depth_after n (ts ++ us) ≡ depth_after m us)
    → Balances m r
    → Balances n (prepend_tokens ts r)
Balances-prepend n m ts none f h = tt
Balances-prepend n m ts (some us) f h = f us ∙ h

module _ (t : ℕ) (next : Lexer → Option (List Token))
    (go : (y : ℕ) (s : List ℕ)
      → IsStack (y ∷ s)
      → Balances (length s) (next (lexer (y ∷ s) []))) where
  dedented :
      (n : ℕ) (u : Token) (st : List ℕ) (q : List Token) (d : ℕ)
      → IsStack st
      → u ∷ q ≡ replicate d dedent
      → suc n ≡ d + length st
      → Balances n (prepend_tokens ((u ∷ q) ++ (other t ∷ [])) (next (lexer st [])))
  unfolding depth_after
  dedented n u [] q d h e f = absurd h
  dedented n u (y ∷ s) q d h e f =
      let g : n ≡ d + length s = omega (arith, f) in
      Balances-prepend n (length s) ((u ∷ q) ++ (other t ∷ [])) (next (lexer (y ∷ s) []))
        (λ us.
          ap (λ z. depth_after n ((z ++ (other t ∷ [])) ++ us)) e
          ∙ ap (λ m. depth_after m ((replicate d dedent ++ (other t ∷ [])) ++ us)) g
          ∙ ap (depth_after (d + length s)) (append_assoc (replicate d dedent) (other t ∷ []) us)
          ∙ after_dedents d (length s) (other t ∷ us))
        (go y s h)

  indented :
      (n : ℕ) (st : List ℕ)
      → IsStack st
      → length st ≡ suc (suc n)
      → Balances n (prepend_tokens (indent ∷ other t ∷ []) (next (lexer st [])))
  unfolding depth_after
  indented n [] h f = absurd h
  indented n (y ∷ s) h f =
      let g : length s ≡ suc n = omega (arith, f) in
      Balances-prepend n (length s) (indent ∷ other t ∷ []) (next (lexer (y ∷ s) []))
        (λ us. rw g refl) (go y s h)

  same_depth :
      (x : ℕ) (s : List ℕ) (l : Lexer)
      → IsStack (x ∷ s)
      → l ≡ lexer (x ∷ s) []
      → Balances
          (length s)
          (prepend_tokens (l.tokens ++ (other t ∷ [])) (next (record l { tokens = [] })))
  unfolding depth_after
  same_depth x s l h e = rw e (
      Balances-prepend (length s) (length s) (other t ∷ []) (next (lexer (x ∷ s) [])) (λ us. refl)
        (go x s h))

  Balances-returned :
      (x : ℕ) (s : List ℕ) (r : Answer × Lexer)
      → IsStack (x ∷ s)
      → Keeps (x ∷ s) r
      → Balances (length s) (then_lex (returned r) (other t ∷ []) next)
  Balances-returned x s (continue, l) h k = same_depth x s l h k
  Balances-returned x s (token u, l) h (k, inl (e, f, g)) =
      rw (e, f) (indented (length s) l.indent_stack k g)
  Balances-returned x s (token u, l) h (k, inr (d, e, f)) =
      dedented (length s) u l.indent_stack l.tokens d k e f
  Balances-returned x s (error, l) h k = tt
  Balances-returned x s (panic, l) h k = absurd k

  Balances-with_indent :
      (x : ℕ) (s : List ℕ) (b : Bool) (r : Result ℕ)
      → IsStack (x ∷ s)
      → Balances
          (length s)
          (then_lex (with_indent r (λ n. check_indent b n (lexer (x ∷ s) []))) (other t ∷ []) next)
  Balances-with_indent x s b (err e) h = tt
  Balances-with_indent x s b (ok n) h =
      Balances-returned x s (check_indent b n (lexer (x ∷ s) [])) h
        (check_indent-Keeps b n (x ∷ s) h)

Balances-end : (x : ℕ) (s : List ℕ) → Balances (length s) (lex_lines [] (lexer (x ∷ s) []))
unfolding lex_lines queue_dedents depth_after
Balances-end x s =
    let e : suc (length s) - 1 ≡ length s = omega arith in
    let f : length s + 0 ≡ length s = omega arith in
    rw e (rw f at (after_dedents (length s) 0 (endmarker ∷ [])))

Balances-lex_lines :
    (xs : List Line) (x : ℕ) (s : List ℕ)
    → IsStack (x ∷ s)
    → Balances (length s) (lex_lines xs (lexer (x ∷ s) []))
unfolding lex_lines line_start
Balances-lex_lines [] x s h = Balances-end x s
Balances-lex_lines (blank ∷ xs) x s h =
    Balances-prepend (length s) (length s) [] (lex_lines xs (lexer (x ∷ s) [])) (λ us. refl)
      (Balances-lex_lines xs x s h)
Balances-lex_lines (line w b t ∷ xs) x s h =
    Balances-with_indent t (λ l. lex_lines xs l) (λ y s' k. Balances-lex_lines xs y s' k) x s b
      (count_indent w) h

Balances-some :
    (n : ℕ) (r : Option (List Token)) {ts : List Token}
    → Balances n r
    → r ≡ some ts
    → depth_after n ts ≡ some 0
Balances-some n r {ts} h e = rw e at h

-- In the tokens of any file that is read without an error, INDENT and DEDENT balance: no DEDENT
-- comes without an INDENT that is still open, and none is open at the end.
pub lex_lines-balance :
    (xs : List Line) {ts : List Token} → lex_lines xs new_lex ≡ some ts → depth_after 0 ts ≡ some 0
lex_lines-balance xs e = Balances-some 0 _ (Balances-lex_lines xs 0 [] refl) e
