-- ===== src/Mro/Linear.antt =====
-- py/type.go: the order that `pmerge` finds, and the lists that it merges.
use taipan.Prelude.{
  ℕ, zero, suc, ◌==◌, ==_iff, true, false, ◌≡◌, refl, inl, inr, Option, none, some, List, [], ◌∷◌,
  map, Bool-cases,
}
use mathlib.Core.List.{Sublistᴰ}
use mathlib.Core.List.Sublistᴰ.{slnil, cons, cons-cons}
use taipan.Exceptions.{Result, ok, Exception}
use taipan.Mro.{
  Class, is_item, advance, all_empty, unless_error, pmerge, total, to_merge, check_duplicates,
  mro_implementation,
}
use taipan.Mro.Picks.{
  Lacks, or_of_false, picked, advance-Lacks, Lacks-advance, Lacks-IsHead, prepend-ok, pmerge-Step,
}

pub pmerge-Lacks :
    (fuel : ℕ) (ls : List (List Class)) (o : Class) {order : List Class}
    → pmerge fuel ls ≡ some (ok order)
    → Lacks ls o
    → is_item order o ≡ false
unfolding pmerge is_item
pmerge-Lacks zero ls o h k = cc
pmerge-Lacks (suc fuel) ls o {order} h k = elim (pmerge-Step fuel ls h) [
  | inl (e, f) ↦ rw f refl
  | inr (c, rest, e, m, f) ↦
      let rec = pmerge-Lacks fuel (map (advance c) ls) o m (Lacks-advance c o ls k) in
      rw f (or_of_false (c == o) (is_item rest o) (Lacks-IsHead c o ls k ((picked ls ls e).1)) rec)
]

abbrev pub IsDistinct : List Class → Type 0
IsDistinct [] = Unit
IsDistinct (c ∷ cs) = (is_item cs c ≡ false) × IsDistinct cs

pub pmerge-IsDistinct :
    (fuel : ℕ) (ls : List (List Class)) {order : List Class}
    → pmerge fuel ls ≡ some (ok order)
    → IsDistinct order
unfolding pmerge
pmerge-IsDistinct zero ls h = absurd cc
pmerge-IsDistinct (suc fuel) ls {order} h = elim (pmerge-Step fuel ls h) [
  | inl (e, f) ↦ rw f tt
  | inr (c, rest, e, m, f) ↦ rw f (
    pmerge-Lacks fuel (map (advance c) ls) c m (advance-Lacks c ls ((picked ls ls e).0)),
    pmerge-IsDistinct fuel (map (advance c) ls) m,
  )
]

-- Each list is a part of the order, in its own order.
abbrev pub Embeds : List (List Class) → List Class → Type 0
Embeds [] order = Unit
Embeds (l ∷ ls) order = Sublistᴰ l order × Embeds ls order

Embeds-empty : (ls : List (List Class)) → all_empty ls ≡ true → Embeds ls []
unfolding all_empty
Embeds-empty [] h = tt
Embeds-empty ([] ∷ ls) h = (slnil, Embeds-empty ls h)
Embeds-empty ((x ∷ xs) ∷ ls) h = absurd cc

advanced : (c : Class) (l rest : List Class) → Sublistᴰ (advance c l) rest → Sublistᴰ l (c ∷ rest)
unfolding advance
advanced c [] rest h = cons h
advanced c (x ∷ xs) rest h = elim (Bool-cases (x == c)) [
  | inl e ↦ let k : Sublistᴰ xs rest = rw e at h in cons-cons ((==_iff x c).0 e) k
  | inr e ↦ let k : Sublistᴰ (x ∷ xs) rest = rw e at h in cons k
]

Embeds-advance :
    (c : Class) (ls : List (List Class)) (rest : List Class)
    → Embeds (map (advance c) ls) rest
    → Embeds ls (c ∷ rest)
Embeds-advance c [] rest h = tt
Embeds-advance c (l ∷ ls) rest h = (advanced c l rest h.0, Embeds-advance c ls rest h.1)

pub pmerge-Embeds :
    (fuel : ℕ) (ls : List (List Class)) {order : List Class}
    → pmerge fuel ls ≡ some (ok order)
    → Embeds ls order
unfolding pmerge
pmerge-Embeds zero ls h = absurd cc
pmerge-Embeds (suc fuel) ls {order} h = elim (pmerge-Step fuel ls h) [
  | inl (e, f) ↦ rw f (Embeds-empty ls e)
  | inr (c, rest, e, m, f) ↦
      rw f (Embeds-advance c ls rest (pmerge-Embeds fuel (map (advance c) ls) m))
]

unless_error-ok :
    (d : Option Exception) (next : Option (Result (List Class))) {order : List Class}
    → unless_error d next ≡ some (ok order)
    → next ≡ some (ok order)
unless_error-ok none next h = h
unless_error-ok (some e) next h = cc

mro-ok :
    (mro : Class → List Class) (t : Class) (bases : List Class) {order : List Class}
    → mro_implementation mro t bases ≡ some (ok order)
    → (rest : List Class) × (pmerge (suc (total (to_merge mro bases))) (to_merge mro bases)
        ≡ some (ok rest))
      × (order ≡ t ∷ rest)
unfolding mro_implementation
mro-ok mro t bases h = prepend-ok t _ (unless_error-ok (check_duplicates bases) _ h)

-- A linearization: the class itself, then an order without repetitions that has the order of each
-- base as a part, and the list of the bases.
abbrev pub Linearizes : (Class → List Class) → Class → List Class → List Class → Type 0
Linearizes mro t bases order =
    (rest : List Class) × (order ≡ t ∷ rest) × IsDistinct rest × Embeds (to_merge mro bases) rest

-- The method resolution order that is found is the class and an order without repetitions in which
-- the classes of the order of each base, and the bases, stand in the order they have there.
pub mro_implementation-Linearizes :
    (mro : Class → List Class) (t : Class) (bases : List Class) {order : List Class}
    → mro_implementation mro t bases ≡ some (ok order)
    → Linearizes mro t bases order
mro_implementation-Linearizes mro t bases h =
    let (rest, m, e) = mro-ok mro t bases h in
    (rest, e, pmerge-IsDistinct _ _ m, pmerge-Embeds _ _ m)
