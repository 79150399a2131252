-- ===== src/Mro/Tests.antt =====
-- py/type.go: the method resolution orders of small class trees.
use taipan.Prelude.{get_or, ◌≡◌, ◌≢◌, ◌↔◌, refl, none, some, List, [], ◌∷◌}
use taipan.Exceptions.{ok, err, exception, type_error}
use taipan.Mro.{Class, mro_implementation, to_merge}
use taipan.Mro.Linear.{Linearizes, mro_implementation-Linearizes}
use taipan.Mro.Ranked.{Succeeds}
use taipan.Mro.Consistent.{IsConsistent, mro_implementation-IsConsistent, mro_implementation-ends}

-- object is 0, A and B are 1 and 2, C(A, B) is 3 and D(B, A) is 4.
abbrev known : List (List Class)
known = (0 ∷ []) ∷ (1 ∷ 0 ∷ []) ∷ (2 ∷ 0 ∷ []) ∷ (3 ∷ 1 ∷ 2 ∷ 0 ∷ []) ∷ (4 ∷ 2 ∷ 1 ∷ 0 ∷ []) ∷ []

abbrev orders : Class → List Class
orders c = get_or known c []

diamond : mro_implementation orders 3 (1 ∷ 2 ∷ []) ≡ some (ok (3 ∷ 1 ∷ 2 ∷ 0 ∷ []))
unfolding mro_implementation
diamond = refl

repeated :
    mro_implementation orders 5 (1 ∷ 1 ∷ [])
    ≡ some (err (exception type_error "duplicate base class %s"))
unfolding mro_implementation
repeated = refl

-- E(C, D) would have A before B and B before A.
crossed :
    mro_implementation orders 5 (3 ∷ 4 ∷ []) ≡ some (err (exception type_error "mro is wonky"))
unfolding mro_implementation
crossed = refl

mro_implementation-Linearizes_example : Linearizes orders 3 (1 ∷ 2 ∷ []) (3 ∷ 1 ∷ 2 ∷ 0 ∷ [])
mro_implementation-Linearizes_example = mro_implementation-Linearizes orders 3 (1 ∷ 2 ∷ []) diamond

mro_implementation-IsConsistent_example :
    Succeeds (mro_implementation orders 3 (1 ∷ 2 ∷ []))
    ↔ IsConsistent (to_merge orders (1 ∷ 2 ∷ []))
mro_implementation-IsConsistent_example = mro_implementation-IsConsistent orders 3 (1 ∷ 2 ∷ [])

mro_implementation-ends_example : mro_implementation orders 5 (3 ∷ 4 ∷ []) ≢ none
mro_implementation-ends_example = mro_implementation-ends orders 5 (3 ∷ 4 ∷ [])
