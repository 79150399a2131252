-- ===== src/Mro.antt =====
-- py/type.go: the method resolution order of a class. Classes are compared
-- by identity: a class is its number. Of each list that `pmerge` merges, the state has the part
-- from the index `remain[i]` on.
pub mod Picks
pub mod Linear
pub mod Ranked
pub mod Consistent
mod Tests
use taipan.Prelude.{
  ℕ, zero, suc, ◌+◌, ◌==◌, Bool, true, false, ◌&&◌, ◌||◌, not, Option, none, some, List, [], ◌∷◌,
  ◌++◌, map, length, if◌then◌else◌, String,
}
use taipan.Exceptions.{Result, ok, err, ◌>>=◌, Exception, exception, type_error}

abbrev pub Class : Type 0
Class = ℕ

unfoldable pub is_item : List Class → Class → Bool
is_item [] o = false
is_item (x ∷ xs) o = (x == o) || is_item xs o

-- The first item is not looked at.
unfoldable pub tail_contains : List Class → Class → Bool
unfolding is_item
tail_contains [] o = false
tail_contains (x ∷ xs) o = is_item xs o

-- The error, if there is one.
unfoldable pub check_duplicates : List Class → Option Exception
unfolding is_item
check_duplicates [] = none
check_duplicates (o ∷ os) =
    if is_item os o
    then some (exception type_error "duplicate base class %s")
    else check_duplicates os

-- Some tail contains the candidate.
unfoldable pub is_blocked : List (List Class) → Class → Bool
unfolding tail_contains
is_blocked [] c = false
is_blocked (l ∷ ls) c = tail_contains l c || is_blocked ls c

-- One round of the outer loop: the first candidate among `rest` that no tail of `all` contains.
unfoldable pub next_candidate : List (List Class) → List (List Class) → Option Class
unfolding is_blocked
next_candidate all [] = none
next_candidate all ([] ∷ rest) = next_candidate all rest
next_candidate all ((c ∷ cs) ∷ rest) =
    let later = next_candidate all rest in if is_blocked all c then later else some c

unfoldable pub advance : Class → List Class → List Class
advance c [] = []
advance c (x ∷ xs) = if x == c then xs else x ∷ xs

unfoldable pub all_empty : List (List Class) → Bool
all_empty [] = true
all_empty ([] ∷ ls) = all_empty ls
all_empty ((x ∷ xs) ∷ ls) = false

abbrev pub prepend : Class → Option (Result (List Class)) → Option (Result (List Class))
prepend c none = none
prepend c (some (err e)) = some (err e)
prepend c (some (ok cs)) = some (ok (c ∷ cs))

-- A round by its candidate: the next round behind it, or the end.
abbrev pub merge_round :
    Bool → (Class → Option (Result (List Class))) → Option Class → Option (Result (List Class))
merge_round empty next (some c) = prepend c (next c)
merge_round empty next none =
    if empty then some (ok []) else some (err (exception type_error "mro is wonky"))

-- `none` is that the fuel, a round each, runs out. The order is what the source appends to `acc`.
unfoldable pub pmerge : ℕ → List (List Class) → Option (Result (List Class))
unfolding next_candidate advance all_empty
pmerge zero ls = none
pmerge (suc fuel) ls =
    merge_round (all_empty ls) (λ c. pmerge fuel (map (advance c) ls)) (next_candidate ls ls)

abbrev pub total : List (List Class) → ℕ
total [] = 0
total (l ∷ ls) = length l + total ls

-- The lists to merge: the orders of the bases and the bases.
abbrev pub to_merge : (Class → List Class) → List Class → List (List Class)
to_merge mro bases = map mro bases ++ (bases ∷ [])

abbrev pub unless_error :
    Option Exception → Option (Result (List Class)) → Option (Result (List Class))
unless_error (some e) next = some (err e)
unless_error none next = next

-- `mro_implementation` of the class `t`; `mro` has the orders of its bases. A round takes an item
-- at least, so that there are as many as items, and the last.
unfoldable pub mro_implementation :
    (Class → List Class) → Class → List Class → Option (Result (List Class))
unfolding check_duplicates pmerge
mro_implementation mro t bases =
    unless_error (check_duplicates bases)
      (prepend t (pmerge (suc (total (to_merge mro bases))) (to_merge mro bases)))
