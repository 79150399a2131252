-- ===== src/Compile/Expressions/Tables.antt =====
-- compile/compile.go: the tables of constants and names, which only grow, and the indices into them.
use taipan.Prelude.{
  ℕ, zero, suc, ◌+◌, ◌<◌, ◌≡◌, refl, sym, ap, ◌∙◌, Bool, true, false, ◌&&◌, Option, none, some,
  List, [], ◌∷◌, ◌++◌, append_assoc, length, length-append, get_elem?, String, str_eq, eq_iff,
  arith, Bool-cases, inl, inr, subst,
}
use taipan.Exceptions.{Result, ok, err}
use taipan.Vm.State.{Object}
use taipan.Compile.Instructions.{u32}
use taipan.Compile.Emission.{Scoping, find_id, index_name, index_or, find_const, const, is_equal}

-- The table is the start of the other.
abbrev pub Starts : {A : Type 0} → List A → List A → Type 0
Starts xs ys = (rest : List _) × (ys ≡ xs ++ rest)

module _ {A : Type 0} where
  get_elem?-append_left :
      (xs ys : List A) (i : ℕ) {x : A} → get_elem? xs i ≡ some x → get_elem? (xs ++ ys) i ≡ some x
  get_elem?-append_left [] ys i h = cc
  get_elem?-append_left (y ∷ xs) ys zero h = h
  get_elem?-append_left (y ∷ xs) ys (suc i) h = get_elem?-append_left xs ys i h

  get_elem?-length : (xs ys : List A) (x : A) → get_elem? (xs ++ x ∷ ys) (length xs) ≡ some x
  get_elem?-length [] ys x = refl
  get_elem?-length (y ∷ xs) ys x = get_elem?-length xs ys x

  pub get_elem?-lt : (xs : List A) (i : ℕ) {x : A} → get_elem? xs i ≡ some x → i < length xs
  get_elem?-lt [] i h = cc
  get_elem?-lt (y ∷ xs) zero h = omega arith
  get_elem?-lt (y ∷ xs) (suc i) h = omega (arith, get_elem?-lt xs i h)

  -- An index that is found is that of the element.
  abbrev pub IsIndex : A → List A → Option ℕ → Type 0
  IsIndex x xs none = Unit
  IsIndex x xs (some i) = get_elem? xs i ≡ some x

  -- What the index is good for once the table has become `ys`.
  pub index_or-Starts :
      (o : Option ℕ) (x : A) (xs ys : List A)
      → IsIndex x xs o
      → length ys < 0x8000_0000
      → Starts (index_or o x xs).1 ys
      → Starts xs ys
        × (get_elem? ys (index_or o x xs).0 ≡ some x)
        × ((index_or o x xs).0 < 0x8000_0000)
  index_or-Starts (some i) x xs ys h few (rest, e) =
      let within = get_elem?-lt xs i h in
      let long : length ys ≡ length xs + length rest = ap length e ∙ length-append xs rest in
      let same : u32 i ≡ i = omega arith in
      let there = get_elem?-append_left xs rest i h in
      (
        (rest, e),
        ap (λ (zs : List A). get_elem? zs (u32 i)) e ∙ ap (get_elem? (xs ++ rest)) same ∙ there,
        omega arith,
      )
  index_or-Starts none x xs ys h few (rest, e) =
      let f : ys ≡ xs ++ x ∷ rest = e ∙ append_assoc xs (x ∷ []) rest in
      let long : length ys ≡ length xs + suc (length rest) =
        ap length f ∙ length-append xs (x ∷ rest) in
      let same : u32 (length xs) ≡ length xs = omega arith in
      (
        (x ∷ rest, f),
        ap (λ (zs : List A). get_elem? zs (u32 (length xs))) f
            ∙ ap (get_elem? (xs ++ x ∷ rest)) same
            ∙ get_elem?-length xs rest x,
        omega arith,
      )

-- An index that is found from index `j` on.
abbrev IsIndexFrom : {A : Type 0} → A → List A → ℕ → Option ℕ → Type 0
IsIndexFrom x xs j none = Unit
IsIndexFrom x xs j (some i) = (n : ℕ) × (i ≡ j + n) × (get_elem? xs n ≡ some x)

IsIndexFrom-cons :
    {A : Type 0} (x y : A) (xs : List A) (j : ℕ) (o : Option ℕ)
    → IsIndexFrom x xs (j + 1) o
    → IsIndexFrom x (y ∷ xs) j o
IsIndexFrom-cons x y xs j none h = tt
IsIndexFrom-cons x y xs j (some i) (n, e, f) = (suc n, omega arith, f)

IsIndexFrom-zero :
    {A : Type 0} (x : A) (xs : List A) (o : Option ℕ) → IsIndexFrom x xs 0 o → IsIndex x xs o
IsIndexFrom-zero x xs none h = tt
IsIndexFrom-zero x xs (some i) (n, e, f) =
    let same : i ≡ n = omega arith in ap (get_elem? xs) same ∙ f

find_id-IsIndexFrom :
    (id : String) (j : ℕ) (xs : List String) → IsIndexFrom id xs j (find_id id j xs)
unfolding find_id
find_id-IsIndexFrom id j [] = tt
find_id-IsIndexFrom id j (s ∷ xs) = elim (Bool-cases (str_eq id s)) [
  | inl same ↦ rw same (0, omega arith, ap some (sym ((eq_iff id s).0 same)))
  | inr other ↦ rw other (IsIndexFrom-cons id s xs j _ (find_id-IsIndexFrom id (j + 1) xs))
]

-- A name's index in its table.
pub index_name-Starts :
    (id : String) (xs ys : List String)
    → length ys < 0x8000_0000
    → Starts (index_name id xs).1 ys
    → Starts xs ys
      × (get_elem? ys (index_name id xs).0 ≡ some id)
      × ((index_name id xs).0 < 0x8000_0000)
unfolding index_name
index_name-Starts id xs ys few h =
    index_or-Starts (find_id id 0 xs) id xs ys
      (IsIndexFrom-zero id xs _ (find_id-IsIndexFrom id 0 xs)) few h

find_id-append :
    (id : String) (j i : ℕ) (xs ys : List String)
    → find_id id j xs ≡ some i
    → find_id id j (xs ++ ys) ≡ some i
unfolding find_id
find_id-append id j i [] ys h = cc
find_id-append id j i (s ∷ xs) ys h = elim (Bool-cases (str_eq id s)) [
  | inl same ↦ rw same (rw same at h)
  | inr other ↦ rw other (find_id-append id (j + 1) i xs ys (rw other at h))
]

find_id-new :
    (id : String) (j : ℕ) (xs ys : List String)
    → find_id id j xs ≡ none
    → find_id id j (xs ++ id ∷ ys) ≡ some (j + length xs)
unfolding find_id
find_id-new id j [] ys h = rw ((eq_iff id id).1 refl) (ap some (omega arith))
find_id-new id j (s ∷ xs) ys h = elim (Bool-cases (str_eq id s)) [
  | inl same ↦ let bad = rw same at h in cc
  | inr other ↦ rw other (find_id-new id (j + 1) xs ys (rw other at h) ∙ ap some (omega arith))
]

found_again :
    (id : String) (xs ys : List String) (o : Option ℕ)
    → length ys < 0x8000_0000
    → find_id id 0 xs ≡ o
    → Starts (index_or o id xs).1 ys
    → find_id id 0 ys ≡ some (index_or o id xs).0
found_again id xs ys (some i) few e (rest, f) =
    let is_index : IsIndex id xs (some i) =
      IsIndexFrom-zero id xs (some i)
        (subst (IsIndexFrom id xs 0) e (find_id-IsIndexFrom id 0 xs)) in
    let within = get_elem?-lt xs i is_index in
    let long : length ys ≡ length xs + length rest = ap length f ∙ length-append xs rest in
    ap (find_id id 0) f ∙ find_id-append id 0 i xs rest e ∙ ap some (omega arith)
found_again id xs ys none few e (rest, f) =
    let g : ys ≡ xs ++ id ∷ rest = f ∙ append_assoc xs (id ∷ []) rest in
    let long : length ys ≡ length xs + suc (length rest) =
      ap length g ∙ length-append xs (id ∷ rest) in
    ap (find_id id 0) g ∙ find_id-new id 0 xs rest e ∙ ap some (omega arith)

-- A name's index is where a search of the finished table finds it.
pub find_id-index_name :
    (id : String) (xs ys : List String)
    → length ys < 0x8000_0000
    → Starts (index_name id xs).1 ys
    → find_id id 0 ys ≡ some (index_name id xs).0
unfolding index_name
find_id-index_name id xs ys few h = found_again id xs ys (find_id id 0 xs) few refl h

module _ (scoping : Scoping)
    (distinct : (a b : Object)
      → scoping.same_type a b ≡ true
      → scoping.eq a b ≡ ok true
      → a ≡ b) where
  is_equal_ok : (r : Result Bool) → is_equal r ≡ true → r ≡ ok true
  is_equal_ok (ok b) h = ap ok h
  is_equal_ok (err e) h = cc

  and_true : (a b : Bool) → (a && b) ≡ true → (a ≡ true) × (b ≡ true)
  and_true true b h = (refl, h)
  and_true false b h = cc

  find_const-IsIndexFrom :
      (x : Object) (j : ℕ) (xs : List Object) → IsIndexFrom x xs j (find_const scoping x j xs)
  unfolding find_const
  find_const-IsIndexFrom x j [] = tt
  find_const-IsIndexFrom x j (c ∷ xs) =
      elim (Bool-cases (scoping.same_type x c && is_equal (scoping.eq x c))) [
        | inl same ↦
            let both = and_true (scoping.same_type x c) (is_equal (scoping.eq x c)) same in
            rw same (0, omega arith, ap some (sym (distinct x c both.0 (is_equal_ok _ both.1))))
        | inr other ↦ rw other (IsIndexFrom-cons x c xs j _ (find_const-IsIndexFrom x (j + 1) xs))
      ]

  -- A constant's index in its table.
  pub const-Starts :
      (x : Object) (xs ys : List Object)
      → length ys < 0x8000_0000
      → Starts (const scoping x xs).1 ys
      → Starts xs ys
        × (get_elem? ys (const scoping x xs).0 ≡ some x)
        × ((const scoping x xs).0 < 0x8000_0000)
  unfolding const
  const-Starts x xs ys few h =
      index_or-Starts (find_const scoping x 0 xs) x xs ys
        (IsIndexFrom-zero x xs _ (find_const-IsIndexFrom x 0 xs)) few h
