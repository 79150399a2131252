-- ===== src/Indents/Stack.antt =====
-- parser/lexer.go: the indentation stack in the state `checkIndent`.
use taipan.Prelude.{
  ℕ, suc, ◌+◌, ◌<◌, ltb, ltb→lt, ◌==◌, Bool, true, false, ◌≡◌, ◌⊎◌, refl, sym, ◌∙◌, inl, inr, arith,
  Option, none, some, List, [], ◌∷◌, ◌++◌, length, replicate, append_assoc, append-nil, Bool-cases,
}
use taipan.Indents.Dedents.{eqb_sym_false}
use taipan.Indents.{
  Token, indent, dedent, Lexer, lexer, Answer, continue, token, error, panic, dequeue, find_indent,
  found_indent, compare_top, check_indent,
}

-- The columns go down from the top to 0.
abbrev pub IsStack : List ℕ → Type 0
IsStack [] = ⊥
IsStack (x ∷ []) = x ≡ 0
IsStack (x ∷ y ∷ s) = (y < x) × IsStack (y ∷ s)

-- What the search finds: the rest of a stack, and a DEDENT for each entry above it.
abbrev Finds : List ℕ → List Token → Option (List ℕ) × List Token → Type 0
Finds s q (none, q') = Unit
Finds s q (some s', q') =
    IsStack s' × ((d : ℕ) × (length s ≡ d + length s') × (q' ≡ q ++ replicate d dedent))

Finds-deeper :
    (x : ℕ) (s : List ℕ) (q : List Token) (r : Option (List ℕ) × List Token)
    → Finds s (q ++ (dedent ∷ [])) r
    → Finds (x ∷ s) q r
Finds-deeper x s q (none, q') h = tt
Finds-deeper x s q (some s', q') (k, (d, e, f)) =
    (k, (suc d, omega arith, f ∙ append_assoc q (dedent ∷ []) (replicate d dedent)))

find_indent-Finds :
    (n x : ℕ) (s : List ℕ) (q : List Token)
    → IsStack (x ∷ s)
    → Finds (x ∷ s) q (find_indent n (x ∷ s) q)
unfolding find_indent
find_indent-Finds n x [] q h = elim (Bool-cases (x == n)) [
  | inl e ↦ rw e (h, (0, omega arith, sym (append-nil q)))
  | inr e ↦ rw e tt
]
find_indent-Finds n x (y ∷ s) q h = elim (Bool-cases (x == n)) [
  | inl e ↦ rw e (h, (0, omega arith, sym (append-nil q)))
  | inr e ↦ rw e (
      Finds-deeper x (y ∷ s) q (find_indent n (y ∷ s) (q ++ (dedent ∷ [])))
        (find_indent-Finds n y s (q ++ (dedent ∷ [])) h.1))
]

-- What the state does on the stack `s` and an empty queue.
abbrev pub Keeps : List ℕ → Answer × Lexer → Type 0
Keeps s (continue, l) = l ≡ lexer s []
Keeps s (token t, l) =
    IsStack l.indent_stack
    × (((t ≡ indent) × (l.tokens ≡ []) × (length l.indent_stack ≡ suc (length s)))
        ⊎ ((d : ℕ) × (t ∷ l.tokens ≡ replicate d dedent) × (length s ≡ d + length l.indent_stack)))
Keeps s (error, l) = l.indent_stack ≡ s
Keeps s (panic, l) = ⊥

found-Keeps :
    (x : ℕ) (s : List ℕ) (r : Option (List ℕ) × List Token)
    → Finds s (dedent ∷ []) r
    → Keeps (x ∷ s) (found_indent (lexer (x ∷ s) []) r)
unfolding dequeue
found-Keeps x s (none, q) h = refl
found-Keeps x s (some s', q) (k, (d, e, f)) = rw f (k, inr (suc d, refl, omega arith))

below :
    (n x : ℕ) (s : List ℕ) → IsStack (x ∷ s) → Finds s (dedent ∷ []) (find_indent n s (dedent ∷ []))
unfolding find_indent
below n x [] h = tt
below n x (y ∷ s) h = find_indent-Finds n y s (dedent ∷ []) h.1

compare_top-Keeps :
    (n x : ℕ) (s : List ℕ)
    → IsStack (x ∷ s)
    → Keeps (x ∷ s) (compare_top n (lexer (x ∷ s) []) (x ∷ s))
unfolding find_indent
compare_top-Keeps n x s h = elim (Bool-cases (n == x)) [
  | inl e ↦ rw e refl
  | inr e ↦ elim (Bool-cases (ltb x n)) [
    | inl t ↦ rw (e, t) ((ltb→lt x n t, h), inl (refl, refl, refl))
    | inr t ↦
        rw (e, t, eqb_sym_false n x e)
          (found-Keeps x s (find_indent n s (dedent ∷ [])) (below n x s h))
  ]
]

-- In a state with a sorted stack, whose last entry is 0, and an empty queue, checkIndent does not
-- panic, and leaves the stack as it is, or returns an INDENT with one more entry on a sorted stack,
-- or returns and queues as many DEDENTs as it takes entries off a sorted stack, or reports an error
-- with the stack as it is.
pub check_indent-Keeps :
    (open_brackets : Bool) (n : ℕ) (s : List ℕ)
    → IsStack s
    → Keeps s (check_indent open_brackets n (lexer s []))
unfolding check_indent
check_indent-Keeps true n s h = refl
check_indent-Keeps false n [] h = h
check_indent-Keeps false n (x ∷ s) h = compare_top-Keeps n x s h
