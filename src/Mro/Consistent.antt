-- ===== src/Mro/Consistent.antt =====
-- py/type.go: which bases have a method resolution order, and the fuel of the search.
use taipan.Prelude.{
  or_false, ℕ, suc, ◌==◌, false, ◌≡◌, ◌≢◌, ◌↔◌, refl, arith, Option, none, some, List, [], ◌∷◌, map,
  if◌then◌else◌,
}
use mathlib.Core.List.{Sublistᴰ}
use mathlib.Core.List.Sublistᴰ.{slnil, cons, cons-cons}
use taipan.Exceptions.{Result, Exception}
use taipan.Mro.{
  Class, is_item, prepend, unless_error, pmerge, total, to_merge, check_duplicates,
  mro_implementation,
}
use taipan.Mro.Picks.{or_of_false}
use taipan.Mro.Linear.{IsDistinct, Embeds, mro_implementation-Linearizes}
use taipan.Mro.Ranked.{
  Above, Rising, AllRising, Succeeds, prepend-Succeeds, prepend-none, pmerge-ends, pmerge-Succeeds,
  Rising-check_duplicates, Rising-last,
}

position : List Class → Class → ℕ
position [] o = 0
position (x ∷ xs) o = if x == o then 0 else suc (position xs o)

position_later :
    (c o : Class) (order : List Class)
    → (o == c) ≡ false
    → position (c ∷ order) o ≡ suc (position order o)
unfolding position
position_later c o order h = ground arith

Sublist-is_item :
    (c : Class) {l order : List Class}
    → Sublistᴰ l order
    → is_item order c ≡ false
    → is_item l c ≡ false
unfolding is_item
Sublist-is_item c slnil h = refl
Sublist-is_item c (cons {a = a} {l₂ = xs} s) h =
    Sublist-is_item c s ((or_false (a == c) (is_item xs c) h).1)
Sublist-is_item c (cons-cons {a = a} {b = b} {l₁ = l} {l₂ = xs} e s) h =
    let (k, k') = or_false (b == c) (is_item xs c) h in
    or_of_false (a == c) (is_item l c) (rw e k) (Sublist-is_item c s k')

Above-later :
    (c : Class) (order : List Class) (n : ℕ) (l : List Class)
    → is_item l c ≡ false
    → Above (position order) n l
    → Above (position (c ∷ order)) (suc n) l
unfolding is_item
Above-later c order n [] h k = tt
Above-later c order n (x ∷ xs) h k =
    let (e, e') = or_false (x == c) (is_item xs c) h in
    let first = k.0 in
    (rw (position_later c x order e) (omega arith), Above-later c order n xs e' k.1)

Above-start :
    (c : Class) (order : List Class) (l : List Class)
    → is_item l c ≡ false
    → Above (position (c ∷ order)) 0 l
unfolding is_item
Above-start c order [] h = tt
Above-start c order (x ∷ xs) h =
    let (e, e') = or_false (x == c) (is_item xs c) h in
    (rw (position_later c x order e) (omega arith), Above-start c order xs e')

Rising-later :
    (c : Class) (order : List Class) (l : List Class)
    → is_item l c ≡ false
    → Rising (position order) l
    → Rising (position (c ∷ order)) l
unfolding is_item
Rising-later c order [] h k = tt
Rising-later c order (x ∷ xs) h k =
    let (e, e') = or_false (x == c) (is_item xs c) h in
    (
      rw (position_later c x order e) (Above-later c order (position order x) xs e' k.0),
      Rising-later c order xs e' k.1,
    )

position_head : (c o : Class) (order : List Class) → o ≡ c → position (c ∷ order) o ≡ 0
unfolding position
position_head c o order e = ground arith

Sublist-Rising :
    {l order : List Class} → Sublistᴰ l order → IsDistinct order → Rising (position order) l
Sublist-Rising slnil d = tt
Sublist-Rising (cons {a = a} {l₁ = l} {l₂ = xs} s) d =
    Rising-later a xs l (Sublist-is_item a s d.0) (Sublist-Rising s d.1)
Sublist-Rising (cons-cons {a = a} {b = b} {l₁ = l} {l₂ = xs} e s) d =
    let apart = Sublist-is_item b s d.0 in
    (
      rw (position_head b a xs e) (Above-start b xs l apart),
      Rising-later b xs l apart (Sublist-Rising s d.1),
    )

Embeds-AllRising :
    (ls : List (List Class)) (order : List Class)
    → Embeds ls order
    → IsDistinct order
    → AllRising (position order) ls
Embeds-AllRising [] order h d = tt
Embeds-AllRising (l ∷ ls) order h d = (Sublist-Rising h.0 d, Embeds-AllRising ls order h.1 d)

-- The classes can be numbered so that the numbers rise along each of the lists.
abbrev pub IsConsistent : List (List Class) → Type 0
IsConsistent ls = (rank : Class → ℕ) × AllRising rank ls

unless_error-none :
    (d : Option Exception) (next : Option (Result (List Class)))
    → d ≡ none
    → unless_error d next ≡ next
unless_error-none none next h = refl
unless_error-none (some e) next h = cc

passed :
    (mro : Class → List Class) (t : Class) (bases : List Class)
    → check_duplicates bases ≡ none
    → mro_implementation mro t bases
      ≡ prepend t (pmerge (suc (total (to_merge mro bases))) (to_merge mro bases))
unfolding mro_implementation
passed mro t bases h = unless_error-none (check_duplicates bases) _ h

-- A class gets a method resolution order if and only if the orders of its bases and the list of its
-- bases are consistent: the classes can be numbered so that the numbers rise along each list.
pub mro_implementation-IsConsistent :
    (mro : Class → List Class) (t : Class) (bases : List Class)
    → Succeeds (mro_implementation mro t bases) ↔ IsConsistent (to_merge mro bases)
mro_implementation-IsConsistent mro t bases = (forth, back)
  where
    forth : Succeeds (mro_implementation mro t bases) → IsConsistent (to_merge mro bases)
    forth (order, e) =
        let (rest, f, d, m) = mro_implementation-Linearizes mro t bases e in
        (position rest, Embeds-AllRising _ rest m d)

    back : IsConsistent (to_merge mro bases) → Succeeds (mro_implementation mro t bases)
    back (rank, r) =
        rw
          (passed mro t bases
            (Rising-check_duplicates rank bases (Rising-last rank (map mro bases) bases r)))
          (prepend-Succeeds t _ (pmerge-Succeeds rank _ _ (omega arith) r))

unless_error-ends :
    (d : Option Exception) (next : Option (Result (List Class)))
    → next ≢ none
    → unless_error d next ≢ none
unless_error-ends none next h = h
unless_error-ends (some e) next h = λ k. cc

-- The search for a method resolution order always ends: the fuel is enough.
pub mro_implementation-ends :
    (mro : Class → List Class) (t : Class) (bases : List Class)
    → mro_implementation mro t bases ≢ none
unfolding mro_implementation
mro_implementation-ends mro t bases = unless_error-ends (check_duplicates bases) _ (
    prepend-none t _
      (pmerge-ends (suc (total (to_merge mro bases))) (to_merge mro bases) (omega arith)))
