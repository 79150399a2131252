-- ===== src/Mro/Ranked.antt =====
-- py/type.go: `pmerge` on lists along which a numbering of the classes rises, and its fuel.
use taipan.Prelude.{
  ℕ, zero, suc, ◌<◌, ◌≤◌, leb, leb→le, ◌==◌, ==_iff, Bool, true, false, ◌≡◌, ◌≢◌, refl, inl, inr,
  ap, arith, Option, none, some, List, [], ◌∷◌, ◌++◌, map, length, Bool-cases,
}
use taipan.Exceptions.{Result, ok, err}
use taipan.Mro.{
  Class, is_item, tail_contains, is_blocked, next_candidate, advance, all_empty, prepend,
  merge_round, pmerge, total, check_duplicates,
}
use taipan.Mro.Picks.{IsHead, or_of_false, picked}

length-advance : (c : Class) (l : List Class) → length (advance c l) ≤ length l
unfolding advance
length-advance c [] = omega arith
length-advance c (x ∷ xs) = elim (Bool-cases (x == c)) [
  | inl e ↦ rw e (omega arith)
  | inr e ↦ rw e (omega arith)
]

total-advance : (c : Class) (ls : List (List Class)) → total (map (advance c) ls) ≤ total ls
total-advance c [] = omega arith
total-advance c (l ∷ ls) = omega (arith, length-advance c l, total-advance c ls)

taken : (c : Class) (x : Class) (xs : List Class) → x ≡ c → length (advance c (x ∷ xs)) ≡ length xs
unfolding advance
taken c x xs e = rw ((==_iff x c).1 e) refl

total-IsHead :
    (c : Class) (ls : List (List Class)) → IsHead c ls → total (map (advance c) ls) < total ls
unfolding advance
total-IsHead c [] h = absurd h
total-IsHead c ([] ∷ ls) h = omega (arith, total-IsHead c ls h)
total-IsHead c ((x ∷ xs) ∷ ls) (inl e) = omega (arith, taken c x xs e, total-advance c ls)
total-IsHead c ((x ∷ xs) ∷ ls) (inr h) =
    omega (arith, length-advance c (x ∷ xs), total-IsHead c ls h)

pub prepend-none : (c : Class) (r : Option (Result (List Class))) → r ≢ none → prepend c r ≢ none
prepend-none c none h k = h refl
prepend-none c (some (err e)) h k = cc
prepend-none c (some (ok cs)) h k = cc

round-ends :
    (b : Bool) (next : Class → Option (Result (List Class))) (o : Option Class)
    → ((c : Class) → o ≡ some c → next c ≢ none)
    → merge_round b next o ≢ none
round-ends true next none f h = cc
round-ends false next none f h = cc
round-ends b next (some c) f h = prepend-none c (next c) (f c refl) h

pub pmerge-ends : (fuel : ℕ) (ls : List (List Class)) → total ls < fuel → pmerge fuel ls ≢ none
unfolding pmerge
pmerge-ends zero ls l = elim l [ ]
pmerge-ends (suc fuel) ls l =
    round-ends (all_empty ls) (λ c. pmerge fuel (map (advance c) ls)) (next_candidate ls ls)
      (λ c e.
        let less = total-IsHead c ls ((picked ls ls e).1) in
        pmerge-ends fuel (map (advance c) ls) (omega arith))

module _ (rank : Class → ℕ) where
  abbrev pub Above : ℕ → List Class → Type 0
  Above n [] = Unit
  Above n (x ∷ xs) = (n < rank x) × Above n xs

  -- The ranks go up along the list.
  abbrev pub Rising : List Class → Type 0
  Rising [] = Unit
  Rising (x ∷ xs) = Above (rank x) xs × Rising xs

  abbrev pub AllRising : List (List Class) → Type 0
  AllRising [] = Unit
  AllRising (l ∷ ls) = Rising l × AllRising ls

  -- No head has a lower rank.
  abbrev HeadsFrom : ℕ → List (List Class) → Type 0
  HeadsFrom n [] = Unit
  HeadsFrom n ([] ∷ ls) = HeadsFrom n ls
  HeadsFrom n ((x ∷ xs) ∷ ls) = (n ≤ rank x) × HeadsFrom n ls

  Above-not_item :
      (c : Class) (n : ℕ) (xs : List Class) → rank c ≤ n → Above n xs → is_item xs c ≡ false
  unfolding is_item
  Above-not_item c n [] l h = refl
  Above-not_item c n (x ∷ xs) l h = elim (Bool-cases (x == c)) [
    | inl e ↦ let same = ap rank ((==_iff x c).0 e) in let up = h.0 in absurd (omega arith)
    | inr e ↦ or_of_false (x == c) (is_item xs c) e (Above-not_item c n xs l h.1)
  ]

  least-free :
      (c : Class) (ls : List (List Class))
      → HeadsFrom (rank c) ls
      → AllRising ls
      → is_blocked ls c ≡ false
  unfolding is_blocked tail_contains
  least-free c [] h r = refl
  least-free c ([] ∷ ls) h r = least-free c ls h r.1
  least-free c ((x ∷ xs) ∷ ls) h r =
      or_of_false (is_item xs c) (is_blocked ls c) (Above-not_item c (rank x) xs h.0 r.0.0)
        (least-free c ls h.1 r.1)

  HeadsFrom-empty : (n : ℕ) (ls : List (List Class)) → all_empty ls ≡ true → HeadsFrom n ls
  unfolding all_empty
  HeadsFrom-empty n [] h = tt
  HeadsFrom-empty n ([] ∷ ls) h = HeadsFrom-empty n ls h
  HeadsFrom-empty n ((x ∷ xs) ∷ ls) h = absurd cc

  HeadsFrom-le : (m n : ℕ) (ls : List (List Class)) → m ≤ n → HeadsFrom n ls → HeadsFrom m ls
  HeadsFrom-le m n [] l h = tt
  HeadsFrom-le m n ([] ∷ ls) l h = HeadsFrom-le m n ls l h
  HeadsFrom-le m n ((x ∷ xs) ∷ ls) l h = let first = h.0 in (omega arith, HeadsFrom-le m n ls l h.1)

  least :
      (ls : List (List Class))
      → all_empty ls ≡ false
      → (c : Class) × IsHead c ls × HeadsFrom (rank c) ls
  unfolding all_empty
  least [] h = absurd cc
  least ([] ∷ ls) h = least ls h
  least ((x ∷ xs) ∷ ls) h = elim (Bool-cases (all_empty ls)) [
    | inl e ↦ (x, inl refl, (omega arith, HeadsFrom-empty (rank x) ls e))
    | inr e ↦
        let (c, hd, low) = least ls e in
        elim (Bool-cases (leb (rank x) (rank c))) [
          | inl t ↦
              let l = leb→le _ _ t in
              (x, inl refl, (omega arith, HeadsFrom-le (rank x) (rank c) ls l low))
          | inr t ↦ (c, inr hd, (ground (arith, t), low))
        ]
  ]

  Rising-advance : (c : Class) (l : List Class) → Rising l → Rising (advance c l)
  unfolding advance
  Rising-advance c [] h = tt
  Rising-advance c (x ∷ xs) h = elim (Bool-cases (x == c)) [ inl e ↦ rw e h.1 | inr e ↦ rw e h ]

  AllRising-advance :
      (c : Class) (ls : List (List Class)) → AllRising ls → AllRising (map (advance c) ls)
  AllRising-advance c [] h = tt
  AllRising-advance c (l ∷ ls) h = (Rising-advance c l h.0, AllRising-advance c ls h.1)

some_ne_none : {A : Type 0} {a : A} → some a ≢ none
some_ne_none h = cc

free-candidate :
    (all rest : List (List Class)) (c : Class)
    → is_blocked all c ≡ false
    → IsHead c rest
    → next_candidate all rest ≢ none
unfolding next_candidate
free-candidate all [] c h k = absurd k
free-candidate all ([] ∷ rest) c h k = free-candidate all rest c h k
free-candidate all ((x ∷ xs) ∷ rest) c h (inl e) = rw (e, h) some_ne_none
free-candidate all ((x ∷ xs) ∷ rest) c h (inr k) = elim (Bool-cases (is_blocked all x)) [
  | inl e ↦ rw e (free-candidate all rest c h k)
  | inr e ↦ rw e some_ne_none
]

abbrev pub Succeeds : Option (Result (List Class)) → Type 0
Succeeds r = (order : List Class) × (r ≡ some (ok order))

pub prepend-Succeeds :
    (c : Class) (r : Option (Result (List Class))) → Succeeds r → Succeeds (prepend c r)
prepend-Succeeds c r (order, e) = (c ∷ order, rw e refl)

round-Succeeds :
    (b : Bool) (next : Class → Option (Result (List Class))) (o : Option Class)
    → (b ≡ false → o ≢ none)
    → ((c : Class) → o ≡ some c → Succeeds (next c))
    → Succeeds (merge_round b next o)
round-Succeeds true next none f g = ([], refl)
round-Succeeds false next none f g = absurd (f refl refl)
round-Succeeds b next (some c) f g = prepend-Succeeds c (next c) (g c refl)

pub pmerge-Succeeds :
    (rank : Class → ℕ) (fuel : ℕ) (ls : List (List Class))
    → total ls < fuel
    → AllRising rank ls
    → Succeeds (pmerge fuel ls)
unfolding pmerge
pmerge-Succeeds rank zero ls l r = elim l [ ]
pmerge-Succeeds rank (suc fuel) ls l r =
    round-Succeeds (all_empty ls) (λ c. pmerge fuel (map (advance c) ls)) (next_candidate ls ls)
      (λ e.
        let (c, hd, low) = least rank ls e in
        free-candidate ls ls c (least-free rank c ls low r) hd)
      (λ c e.
        let less = total-IsHead c ls ((picked ls ls e).1) in
        pmerge-Succeeds rank fuel (map (advance c) ls) (omega arith)
          (AllRising-advance rank c ls r))

pub Rising-check_duplicates :
    (rank : Class → ℕ) (l : List Class) → Rising rank l → check_duplicates l ≡ none
unfolding check_duplicates
Rising-check_duplicates rank [] h = refl
Rising-check_duplicates rank (x ∷ xs) h =
    rw (Above-not_item rank x (rank x) xs (omega arith) h.0) (Rising-check_duplicates rank xs h.1)

pub Rising-last :
    (rank : Class → ℕ) (ls : List (List Class)) (l : List Class)
    → AllRising rank (ls ++ (l ∷ []))
    → Rising rank l
Rising-last rank [] l h = h.0
Rising-last rank (m ∷ ls) l h = Rising-last rank ls l h.1
