-- ===== src/Mro/Picks.antt =====
-- py/type.go: what a round of `pmerge` picks, and what it leaves.
use taipan.Prelude.{
  ℕ, suc, ◌==◌, Bool, true, false, ◌||◌, ◌≡◌, ◌⊎◌, refl, inl, inr, Option, none, some, List, [],
  ◌∷◌, map, if◌then◌else◌, Bool-cases, or_false,
}
use taipan.Exceptions.{Result, ok, err}
use taipan.Mro.{
  Class, is_item, tail_contains, is_blocked, next_candidate, advance, all_empty, prepend,
  merge_round, pmerge,
}

pub or_of_false : (a b : Bool) → a ≡ false → b ≡ false → (a || b) ≡ false
or_of_false a b h k = rw (h, k) refl

-- No list has the class.
abbrev pub Lacks : List (List Class) → Class → Type 0
Lacks [] c = Unit
Lacks (l ∷ ls) c = (is_item l c ≡ false) × Lacks ls c

-- The head of one of the lists.
abbrev pub IsHead : Class → List (List Class) → Type 0
IsHead c [] = ⊥
IsHead c ([] ∷ ls) = IsHead c ls
IsHead c ((x ∷ xs) ∷ ls) = (x ≡ c) ⊎ IsHead c ls

picked-IsHead :
    (all : List (List Class)) (b : Bool) (x : Class) (xs : List Class) (rest : List (List Class))
    {c : Class}
    → is_blocked all x ≡ b
    → (next_candidate all rest ≡ some c → (is_blocked all c ≡ false) × IsHead c rest)
    → (if b then next_candidate all rest else some x) ≡ some c
    → (is_blocked all c ≡ false) × IsHead c ((x ∷ xs) ∷ rest)
picked-IsHead all true x xs rest e f h = let (k, k') = f h in (k, inr k')
picked-IsHead all false x xs rest {c} e f h = let same : x ≡ c = cc in (rw (sym' same) e, inl same)
  where
    sym' : {a b : Class} → a ≡ b → b ≡ a
    sym' p = cc

pub picked :
    (all rest : List (List Class)) {c : Class}
    → next_candidate all rest ≡ some c
    → (is_blocked all c ≡ false) × IsHead c rest
unfolding next_candidate
picked all [] h = cc
picked all ([] ∷ rest) h = picked all rest h
picked all ((x ∷ xs) ∷ rest) h =
    picked-IsHead all (is_blocked all x) x xs rest refl (λ k. picked all rest k) h

advance_lacks :
    (c : Class) (l : List Class) → tail_contains l c ≡ false → is_item (advance c l) c ≡ false
unfolding advance tail_contains is_item
advance_lacks c [] h = refl
advance_lacks c (x ∷ xs) h = elim (Bool-cases (x == c)) [
  | inl e ↦ rw e h
  | inr e ↦ rw e (or_of_false (x == c) (is_item xs c) e h)
]

pub advance-Lacks :
    (c : Class) (ls : List (List Class)) → is_blocked ls c ≡ false → Lacks (map (advance c) ls) c
unfolding is_blocked
advance-Lacks c [] h = tt
advance-Lacks c (l ∷ ls) h =
    let (k, k') = or_false (tail_contains l c) (is_blocked ls c) h in
    (advance_lacks c l k, advance-Lacks c ls k')

advance_keeps :
    (c o : Class) (l : List Class) → is_item l o ≡ false → is_item (advance c l) o ≡ false
unfolding advance is_item
advance_keeps c o [] h = refl
advance_keeps c o (x ∷ xs) h = elim (Bool-cases (x == c)) [
  | inl e ↦ rw e ((or_false (x == o) (is_item xs o) h).1)
  | inr e ↦ rw e h
]

pub Lacks-advance :
    (c o : Class) (ls : List (List Class)) → Lacks ls o → Lacks (map (advance c) ls) o
Lacks-advance c o [] h = tt
Lacks-advance c o (l ∷ ls) h = (advance_keeps c o l h.0, Lacks-advance c o ls h.1)

-- A class that no list has is not picked.
pub Lacks-IsHead :
    (c o : Class) (ls : List (List Class)) → Lacks ls o → IsHead c ls → (c == o) ≡ false
unfolding is_item
Lacks-IsHead c o [] h k = absurd k
Lacks-IsHead c o ([] ∷ ls) h k = Lacks-IsHead c o ls h.1 k
Lacks-IsHead c o ((x ∷ xs) ∷ ls) h (inl e) = rw e at ((or_false (x == o) (is_item xs o) h.0).0)
Lacks-IsHead c o ((x ∷ xs) ∷ ls) h (inr k) = Lacks-IsHead c o ls h.1 k

-- How a merge ended that found an order.
abbrev pub Step : ℕ → List (List Class) → List Class → Type 0
Step fuel ls order =
    ((all_empty ls ≡ true) × (order ≡ []))
    ⊎ ((c : Class) × (rest : List Class) × (next_candidate ls ls ≡ some c)
        × (pmerge fuel (map (advance c) ls) ≡ some (ok rest))
        × (order ≡ c ∷ rest))

pub prepend-ok :
    (c : Class) (r : Option (Result (List Class))) {order : List Class}
    → prepend c r ≡ some (ok order)
    → (rest : List Class) × (r ≡ some (ok rest)) × (order ≡ c ∷ rest)
prepend-ok c none h = cc
prepend-ok c (some (err e)) h = cc
prepend-ok c (some (ok cs)) h = (cs, refl, cc)

round-Step :
    (fuel : ℕ) (ls : List (List Class)) (b : Bool) (o : Option Class) {order : List Class}
    → all_empty ls ≡ b
    → next_candidate ls ls ≡ o
    → merge_round b (λ c. pmerge fuel (map (advance c) ls)) o ≡ some (ok order)
    → Step fuel ls order
round-Step fuel ls true none e f h = inl (e, cc)
round-Step fuel ls false none e f h = absurd cc
round-Step fuel ls b (some c) e f h = let (rest, m, o) = prepend-ok c _ h in inr (c, rest, f, m, o)

pub pmerge-Step :
    (fuel : ℕ) (ls : List (List Class)) {order : List Class}
    → pmerge (suc fuel) ls ≡ some (ok order)
    → Step fuel ls order
unfolding pmerge
pmerge-Step fuel ls h = round-Step fuel ls _ _ refl refl h
