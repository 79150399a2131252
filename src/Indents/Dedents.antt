-- ===== src/Indents/Dedents.antt =====
-- parser/lexer.go: the tokens before a line, and the DEDENTs that close the entries deeper than it.
use taipan.Prelude.{
  ℕ, suc, ◌-◌, ◌<◌, ◌≤◌, ltb, lt→ltb, ◌==◌, true, false, ◌≡◌, refl, sym, ap, inl, inr, arith,
  Option, none, some, List, [], ◌∷◌, ◌++◌, length, append_assoc, Bool-cases,
}
use taipan.Exceptions.{ok}
use taipan.Indents.{
  Token, indent, dedent, other, Lexer, lexer, count_indent, dequeue, find_indent, found_indent,
  check_indent, queue_dedents, Line, blank, line, returned, line_start, prepend_tokens, then_lex,
  lex_lines,
}

-- The tokens before a line at column `n`.
pub line_at : ℕ → List ℕ → Option (List Token × Lexer)
unfolding check_indent
line_at n s = returned (check_indent false n (lexer s []))

find_queued :
    (n : ℕ) (s : List ℕ) (q : List Token)
    → find_indent n s (dedent ∷ q) ≡ ((find_indent n s q).0, dedent ∷ (find_indent n s q).1)
unfolding find_indent
find_queued n [] q = refl
find_queued n (x ∷ s) q = elim (Bool-cases (x == n)) [
  | inl e ↦ rw e refl
  | inr e ↦ rw e (find_queued n s (q ++ (dedent ∷ [])))
]

abbrev after_dedent : Option (List Token × Lexer) → Option (List Token × Lexer)
after_dedent none = none
after_dedent (some (ts, l)) = some (dedent ∷ ts, l)

found_queued :
    (r : Option (List ℕ) × List Token) (l l' : Lexer) (q : List Token)
    → returned (found_indent l (r.0, dedent ∷ dedent ∷ q))
      ≡ after_dedent (returned (found_indent l' (r.0, dedent ∷ q)))
unfolding dequeue
found_queued (none, p) l l' q = refl
found_queued (some s, p) l l' q = refl

ne_of_lt : (m n : ℕ) → m < n → (m == n) ≡ false
ne_of_lt m n h = ground arith

ne_of_gt : (m n : ℕ) → m < n → (n == m) ≡ false
ne_of_gt m n h = ground arith

eqb_sym : (m n : ℕ) → (m == n) ≡ true → (n == m) ≡ true
eqb_sym m n h = ground arith

pub eqb_sym_false : (m n : ℕ) → (m == n) ≡ false → (n == m) ≡ false
eqb_sym_false m n h = ground arith

not_ltb : (m n : ℕ) → m ≤ n → ltb n m ≡ false
not_ltb m n h = ground arith

eqb_refl : (n : ℕ) → (n == n) ≡ true
eqb_refl n = ground arith

-- An entry that is deeper than the line, with another below it that is not shallower, is closed by
-- a DEDENT.
line_at-pop :
    (n s' s : ℕ) (ss : List ℕ)
    → n < s'
    → n ≤ s
    → line_at n (s' ∷ s ∷ ss) ≡ after_dedent (line_at n (s ∷ ss))
unfolding line_at find_indent
line_at-pop n s' s ss l m =
    let apart = ne_of_lt n s' l in
    let apart' = ne_of_gt n s' l in
    let above : ltb s' n ≡ false = not_ltb n s' (omega arith) in
    elim (Bool-cases (n == s)) [
      | inl e ↦ rw (apart, apart', above, e, eqb_sym n s e) refl
      | inr e ↦
          rw
            (
              apart,
              apart',
              above,
              e,
              eqb_sym_false n s e,
              not_ltb n s m,
              find_queued n ss (dedent ∷ []),
              find_queued n ss [],
            )
            (found_queued (find_indent n ss []) (lexer (s' ∷ s ∷ ss) []) (lexer (s ∷ ss) [])
              ((find_indent n ss []).1))
    ]

-- What follows a block at column `n`: nothing, or a line that is not indented deeper.
abbrev pub Follows : ℕ → List Line → Type 0
Follows n [] = Unit
Follows n (blank ∷ xs) = ⊥
Follows n (line w b t ∷ xs) = (b ≡ false) × ((m : ℕ) × (count_indent w ≡ ok m) × (m ≤ n))

pub prepend_nil : (r : Option (List Token)) → prepend_tokens [] r ≡ r
prepend_nil none = refl
prepend_nil (some us) = refl

pub prepend_append :
    (ts us : List Token) (r : Option (List Token))
    → prepend_tokens ts (prepend_tokens us r) ≡ prepend_tokens (ts ++ us) r
prepend_append ts us none = refl
prepend_append ts us (some vs) = ap some (sym (append_assoc ts us vs))

then_dedent :
    (r : Option (List Token × Lexer)) (ts : List Token) (next : Lexer → Option (List Token))
    → then_lex (after_dedent r) ts next ≡ prepend_tokens (dedent ∷ []) (then_lex r ts next)
then_dedent none ts next = refl
then_dedent (some (us, l)) ts next = sym (prepend_append (dedent ∷ []) (us ++ ts) (next l))

pub lex_line :
    (w : List ℕ) (t m : ℕ) (xs : List Line) (s : List ℕ)
    → count_indent w ≡ ok m
    → lex_lines (line w false t ∷ xs) (lexer s [])
      ≡ then_lex (line_at m s) (other t ∷ []) (λ l. lex_lines xs l)
unfolding lex_lines line_start line_at
lex_line w t m xs s e = rw e refl

pub lex_pop :
    (s' s : ℕ) (ss : List ℕ) (xs : List Line)
    → s < s'
    → Follows s xs
    → lex_lines xs (lexer (s' ∷ s ∷ ss) [])
      ≡ prepend_tokens (dedent ∷ []) (lex_lines xs (lexer (s ∷ ss) []))
unfolding lex_lines queue_dedents
lex_pop s' s ss [] l f =
    let two : suc (suc (length ss)) - 1 ≡ suc (length ss) = omega arith in
    let one : suc (length ss) - 1 ≡ length ss = omega arith in rw (two, one) refl
lex_pop s' s ss (blank ∷ xs) l f = absurd f
lex_pop s' s ss (line w b t ∷ xs) l (e, (m, c, k)) =
    rw
      (
        e,
        lex_line w t m xs (s' ∷ s ∷ ss) c,
        lex_line w t m xs (s ∷ ss) c,
        line_at-pop m s' s ss (omega arith) k,
      )
      (then_dedent (line_at m (s ∷ ss)) (other t ∷ []) (λ l. lex_lines xs l))

pub line_at-same : (n : ℕ) (ss : List ℕ) → line_at n (n ∷ ss) ≡ some ([], lexer (n ∷ ss) [])
unfolding line_at check_indent
line_at-same n ss = rw (eqb_refl n) refl

pub line_at-deeper :
    (m n : ℕ) (ss : List ℕ) → n < m → line_at m (n ∷ ss) ≡ some (indent ∷ [], lexer (m ∷ n ∷ ss) [])
unfolding line_at check_indent
line_at-deeper m n ss l = rw (ne_of_gt n m l, lt→ltb n m l) refl
