-- ===== src/Vm/Arguments/Complete.antt =====
-- vm/eval.go: the loops of `EvalCode` that bind arguments, and the slots that each leaves bound.
use taipan.Prelude.{
  ℕ, zero, suc, ◌+◌, ◌-◌, ◌<◌, ◌≤◌, ◌≡◌, subst, refl, ap, ◌∙◌, false, ◌&&◌, not, Option, none, some,
  List, [], ◌∷◌, ◌++◌, length, take, drop, length-drop, get_or, get_or-set_self, get_elem?,
  length-replicate, ltb, if◌then◌else◌, Bool-cases, inl, inr, arith,
}
use native.Mathlib.Decide.{dec_lt}
use taipan.Vm.State.{Object}
use taipan.Exceptions.{ok, >>=-eq-ok, if-err-ok}
use taipan.Vm.Arguments.{
  Code, total_args, Slots, Locals, Keywords, is_nil, place, first_locals, fill_slot, fill_from,
  bind_keywords, bind_defaults, bind_keyword_only, check_positional, count_nil, bind_arguments,
}
use taipan.Vm.Arguments.Extends.{Extends, fill_slot-Extends, fill_from-Extends, defaulted}

length-place : (args : List Object) (s : Slots) → length (place args s) ≡ length s
unfolding place
length-place [] s = refl
length-place (a ∷ args) [] = refl
length-place (a ∷ args) (x ∷ s) = ap suc (length-place args s)

get_or-place :
    (args : List Object) (s : Slots) (i : ℕ) (a : Object)
    → get_elem? args i ≡ some a
    → i < length s
    → get_or (place args s) i none ≡ some a
unfolding place
get_or-place [] s i a e h = cc
get_or-place (x ∷ args) [] i a e h = elim h [ ]
get_or-place (x ∷ args) (y ∷ s) zero a e h = e
get_or-place (x ∷ args) (y ∷ s) (suc i) a e h = get_or-place args s i a e (omega arith)

-- A slot that holds a value.
abbrev pub IsBound : Slots → ℕ → Type 0
IsBound s i = is_nil (get_or s i none) ≡ false

bound-some : (x : Option Object) → is_nil x ≡ false → (a : Object) × (x ≡ some a)
bound-some none e = cc
bound-some (some a) e = (a, refl)

pub Extends-IsBound : (s t : Slots) (i : ℕ) → Extends s t → IsBound s i → IsBound t i
Extends-IsBound s t i (e, f) h = let (a, e') = bound-some (get_or s i none) h in rw (f i a e') refl

pub count_nil-IsBound : (s : Slots) → count_nil s ≡ 0 → (i : ℕ) → i < length s → IsBound s i
unfolding count_nil
count_nil-IsBound [] h i h' = elim h' [ ]
count_nil-IsBound (none ∷ s) h i h' = absurd (ground (arith, h))
count_nil-IsBound (some a ∷ s) h zero h' = refl
count_nil-IsBound (some a ∷ s) h (suc i) h' = count_nil-IsBound s h i (omega arith)

fill_slot-IsBound : (s : Slots) (p : ℕ) (d : Object) → p < length s → IsBound (fill_slot s p d) p
fill_slot-IsBound s p d h = elim (Bool-cases (is_nil (get_or s p none))) [
  | inl e ↦ rw (e, get_or-set_self s p (some d) none h) refl
  | inr e ↦ rw (e, e) refl
]

fill_from-IsBound :
    (p : ℕ) (defs : List Object) (s : Slots) (i : ℕ)
    → p ≤ i
    → i < p + length defs
    → i < length s
    → IsBound (fill_from p defs s) i
unfolding fill_from
fill_from-IsBound p [] s i h h' k = absurd (omega arith)
fill_from-IsBound p (d ∷ defs) s i h h' k = elim (dec_lt p i) [
  | no l ↦
      let e : p ≡ i = omega arith in
      Extends-IsBound (fill_slot s p d) _ i (fill_from-Extends (p + 1) defs (fill_slot s p d))
        (subst (IsBound (fill_slot s p d)) e (fill_slot-IsBound s p d (omega arith)))
  | yes l ↦
      fill_from-IsBound (p + 1) defs (fill_slot s p d) i (omega arith) (omega arith)
        (omega (arith, (fill_slot-Extends s p d).0))
]

-- Where nothing is nil between `g` and `g + n`.
window-IsBound :
    (s : Slots) (g n i : ℕ)
    → count_nil (take n (drop g s)) ≡ 0
    → g ≤ i
    → i < g + n
    → i < length s
    → IsBound s i
unfolding count_nil
window-IsBound [] g n i e h h' k = elim k [ ]
window-IsBound (x ∷ s) (suc g) n zero e h h' k = absurd (omega arith)
window-IsBound (x ∷ s) (suc g) n (suc i) e h h' k =
    window-IsBound s g n i e (omega arith) (omega arith) (omega arith)
window-IsBound (x ∷ s) zero zero i e h h' k = absurd (omega arith)
window-IsBound (none ∷ s) zero (suc n) i e h h' k = absurd (ground (arith, e))
window-IsBound (some a ∷ s) zero (suc n) zero e h h' k = refl
window-IsBound (some a ∷ s) zero (suc n) (suc i) e h h' k =
    window-IsBound s zero n i e (omega arith) (omega arith) (omega arith)

pub behind-IsBound :
    (n : ℕ) (s t : Slots) (i : ℕ)
    → n ≤ i
    → n ≤ length s
    → ((j : ℕ) → j < length s - n → IsBound t j)
    → i < length s
    → IsBound (take n s ++ t) i
behind-IsBound zero s t i h h' f k = f i (omega arith)
behind-IsBound (suc n) [] t i h h' f k = elim k [ ]
behind-IsBound (suc n) (x ∷ s) t zero h h' f k = absurd (omega arith)
behind-IsBound (suc n) (x ∷ s) t (suc i) h h' f k =
    behind-IsBound n s t i (omega arith) (omega arith) (λ j h₁. f j (omega arith)) (omega arith)

-- The parameters that take positional arguments are bound once the defaults are.
pub defaulted-IsBound :
    (co : Code) (given : ℕ) (defs : List Object) (s : Slots) (i : ℕ)
    → count_nil (take (co.argcount - length defs - given) (drop given s)) ≡ 0
    → co.argcount ≤ length s
    → ((j : ℕ) → j < given → j < co.argcount → IsBound s j)
    → i < co.argcount
    → IsBound (defaulted co given defs s) i
defaulted-IsBound co given defs s i e h f k =
    let m = co.argcount - length defs in
    let first = if ltb given m then m else given in
    let used = drop (given + length defs - co.argcount) defs in
    let keep = Extends-IsBound s (defaulted co given defs s) i (fill_from-Extends first used s) in
    elim (dec_lt i given) [
      | yes l ↦ keep (f i l k)
      | no l ↦ elim (dec_lt i m) [
        | yes l' ↦
            keep (window-IsBound s given (m - given) i e (omega arith) (omega arith) (omega arith))
        | no l' ↦
            let size = length-drop (given + length defs - co.argcount) defs in
            fill_from-IsBound first used s i (ground arith) (ground (arith, size)) (omega arith)
      ]
    ]

get_elem?-take :
    (n : ℕ) (xs : List Object) (i : ℕ) → i < n → get_elem? (take n xs) i ≡ get_elem? xs i
get_elem?-take zero xs i h = absurd (omega arith)
get_elem?-take (suc n) [] i h = refl
get_elem?-take (suc n) (x ∷ xs) zero h = refl
get_elem?-take (suc n) (x ∷ xs) (suc i) h = get_elem?-take n xs i (omega arith)

pub element : (xs : List Object) (i : ℕ) → i < length xs → (a : Object) × (get_elem? xs i ≡ some a)
element [] i h = elim h [ ]
element (x ∷ xs) zero h = (x, refl)
element (x ∷ xs) (suc i) h = element xs i (omega arith)

pub length-first_locals :
    (co : Code) (args : List Object) → length (first_locals co args).params ≡ total_args co
unfolding first_locals
length-first_locals co args =
    length-place (take co.argcount args) _ ∙ length-replicate (total_args co) none

-- Positional arguments, and the slots they take.
pub get_or-first_locals :
    (co : Code) (args : List Object) (i : ℕ) (a : Object)
    → i < co.argcount
    → get_elem? args i ≡ some a
    → get_or (first_locals co args).params i none ≡ some a
unfolding first_locals
get_or-first_locals co args i a h e =
    let size = length-replicate {A = Option Object} (total_args co) none in
    get_or-place (take co.argcount args) _ i a (get_elem?-take co.argcount args i h ∙ e)
      (omega (arith, size))

-- The steps of a call that succeeds.
abbrev pub Stages : Code → List Object → Keywords → List Object → Keywords → Locals → Type 0
Stages co args kws defs kwdefs l =
    (l₁ l₂ : Locals) × (bind_keywords co kws (first_locals co args) ≡ ok l₁)
    × ((ltb co.argcount (length args) && not co.varargs) ≡ false)
    × (bind_defaults co (length args) defs l₁ ≡ ok l₂)
    × (bind_keyword_only co kwdefs l₂ ≡ ok l)

pub bind_arguments-Stages :
    (co : Code) (args : List Object) (kws : Keywords) (defs : List Object) (kwdefs : Keywords)
    (l : Locals)
    → bind_arguments co args kws defs kwdefs ≡ ok l
    → Stages co args kws defs kwdefs l
unfolding bind_arguments check_positional
bind_arguments-Stages co args kws defs kwdefs l h =
    let (l₁, e₁, h₁) = >>=-eq-ok (bind_keywords co kws (first_locals co args)) _ h in
    let (l₂, e₂, h₂) = >>=-eq-ok (check_positional co (length args) l₁) _ h₁ in
    let (l₃, e₃, e₄) = >>=-eq-ok (bind_defaults co (length args) defs l₂) _ h₂ in
    let (guard, same) = if-err-ok (ltb co.argcount (length args) && not co.varargs) l₁ l₂ _ e₂ in
    (l₁, l₃, e₁, guard, rw same e₃, e₄)
