-- ===== src/Vm/Arguments/Extends.antt =====
-- vm/eval.go: the slots of the parameters before and behind each loop of `EvalCode`.
use taipan.Prelude.{
  ℕ, zero, suc, ◌+◌, ◌-◌, ◌≡◌, refl, ap, ◌∙◌, sym, true, ◌⊎◌, false, Option, none, some, List, [],
  ◌∷◌, ◌++◌, String, length, take, drop, set, get_or, length-set, ltb, ◌==◌, ◌&&◌, not,
  if◌then◌else◌, Bool-cases, inl, inr, arith,
}
use taipan.Vm.State.{Object}
use taipan.Exceptions.{ok, err, >>=-eq-ok, ok_injective, if-ok-err, if-err-ok}
use taipan.Vm.Arguments.{
  Code, Slots, Locals, Keywords, is_nil, fill_slot, fill_from, fill_keyword_only, bind_parameter,
  bind_other, find_name, bind_keyword, bind_keywords, bind_defaults, bind_keyword_only,
  check_positional, count_nil, or_default, missing_arguments,
}

-- The same slots, where a bound one has kept its value.
abbrev pub Extends : Slots → Slots → Type 0
Extends s t =
    (length t ≡ length s)
    × ((i : ℕ) (a : Object) → get_or s i none ≡ some a → get_or t i none ≡ some a)

pub Extends-refl : (s : Slots) → Extends s s
Extends-refl s = (refl, λ i a e. e)

pub Extends-trans : (s t u : Slots) → Extends s t → Extends t u → Extends s u
Extends-trans s t u (e, f) (e', g) = (e' ∙ e, λ i a h. g i a (f i a h))

keeps-set :
    (s : Slots) (j : ℕ) (v : Object) (i : ℕ) (a : Object)
    → is_nil (get_or s j none) ≡ true
    → get_or s i none ≡ some a
    → get_or (set s j (some v)) i none ≡ some a
keeps-set [] j v i a h e = e
keeps-set (none ∷ s) zero v zero a h e = cc
keeps-set (some x ∷ s) zero v zero a h e = cc
keeps-set (x ∷ s) zero v (suc i) a h e = e
keeps-set (x ∷ s) (suc j) v zero a h e = e
keeps-set (x ∷ s) (suc j) v (suc i) a h e = keeps-set s j v i a h e

pub set-Extends :
    (s : Slots) (j : ℕ) (v : Object)
    → is_nil (get_or s j none) ≡ true
    → Extends s (set s j (some v))
set-Extends s j v h = (length-set s j (some v), λ i a e. keeps-set s j v i a h e)

pub fill_slot-Extends : (s : Slots) (p : ℕ) (d : Object) → Extends s (fill_slot s p d)
fill_slot-Extends s p d = elim (Bool-cases (is_nil (get_or s p none))) [
  | inl h ↦ rw h (set-Extends s p d h)
  | inr h ↦ rw h (Extends-refl s)
]

pub fill_from-Extends : (p : ℕ) (defs : List Object) (s : Slots) → Extends s (fill_from p defs s)
unfolding fill_from
fill_from-Extends p [] s = Extends-refl s
fill_from-Extends p (d ∷ defs) s =
    Extends-trans s (fill_slot s p d) _ (fill_slot-Extends s p d)
      (fill_from-Extends (p + 1) defs (fill_slot s p d))

keeps-cons :
    (x y : Option Object) (s t : Slots)
    → ((a : Object) → x ≡ some a → y ≡ some a)
    → ((i : ℕ) (a : Object) → get_or s i none ≡ some a → get_or t i none ≡ some a)
    → (i : ℕ) (a : Object) → get_or (x ∷ s) i none ≡ some a
    → get_or (y ∷ t) i none ≡ some a
keeps-cons x y s t f g zero a e = f a e
keeps-cons x y s t f g (suc i) a e = g i a e

or_default-bound :
    (d : Option Object) (a : Object) (x : Option Object) → x ≡ some a → or_default x d ≡ some a
or_default-bound d a none e = cc
or_default-bound d a (some b) e = e

pub fill_keyword_only-Extends :
    (d : Keywords) (names : List String) (s : Slots) → Extends s (fill_keyword_only d names s)
unfolding fill_keyword_only
fill_keyword_only-Extends d [] s = Extends-refl s
fill_keyword_only-Extends d (k ∷ names) [] = Extends-refl []
fill_keyword_only-Extends d (k ∷ names) (x ∷ s) =
    let (e, f) = fill_keyword_only-Extends d names s in
    (ap suc e, keeps-cons x _ s _ (λ a. or_default-bound _ a x) f)

pub behind-Extends : (n : ℕ) (s t : Slots) → Extends (drop n s) t → Extends s (take n s ++ t)
behind-Extends zero s t h = h
behind-Extends (suc n) [] t h = h
behind-Extends (suc n) (x ∷ s) t h =
    let (e, f) = behind-Extends n s t h in (ap suc e, keeps-cons x x s _ (λ a e'. e') f)

bind_parameter-Extends :
    (j : ℕ) (v : Object) (l l' : Locals) → bind_parameter j v l ≡ ok l' → Extends l.params l'.params
unfolding bind_parameter
bind_parameter-Extends j v l l' h =
    let (e, e') = if-ok-err (is_nil (get_or l.params j none)) _ l' _ h in
    rw (ap (λ x. x.params) (sym e')) (set-Extends l.params j v e)

bind_other-params :
    (k : String) (v : Object) (d : Option Keywords) (l l' : Locals)
    → bind_other k v d l ≡ ok l'
    → l'.params ≡ l.params
unfolding bind_other
bind_other-params k v none l l' h = cc
bind_other-params k v (some d) l l' h = sym (ap (λ x. x.params) (ok_injective h))

pub bind_keyword-Extends :
    (co : Code) (k : String) (v : Object) (l l' : Locals)
    → bind_keyword co k v l ≡ ok l'
    → Extends l.params l'.params
unfolding bind_keyword
bind_keyword-Extends co k v l l' h =
    elim (find_name k co.names)
        as (λ f.
          elim f [ some j ↦ bind_parameter j v l | none ↦ bind_other k v l.keywords l ] ≡ ok l'
          → Extends l.params l'.params) [
            | some j ↦ bind_parameter-Extends j v l l'
            | none ↦ λ e. rw (bind_other-params k v l.keywords l l' e) (Extends-refl l.params)
          ]
      h

pub bind_keywords-Extends :
    (co : Code) (kws : Keywords) (l l' : Locals)
    → bind_keywords co kws l ≡ ok l'
    → Extends l.params l'.params
unfolding bind_keywords
bind_keywords-Extends co [] l l' h =
    rw (ap (λ x. x.params) (ok_injective h)) (Extends-refl l'.params)
bind_keywords-Extends co ((k, v) ∷ kws) l l' h =
    let (l₁, e, e') = >>=-eq-ok (bind_keyword co k v l) _ h in
    Extends-trans l.params l₁.params l'.params (bind_keyword-Extends co k v l l₁ e)
      (bind_keywords-Extends co kws l₁ l' e')

pub check_positional_ok :
    (co : Code) (given : ℕ) (l l' : Locals) → check_positional co given l ≡ ok l' → l' ≡ l
unfolding check_positional
check_positional_ok co given l l' h =
    sym (if-err-ok (ltb co.argcount given && not co.varargs) l l' _ h).1

-- The slots that `bind_defaults` leaves when there are too few positional arguments.
abbrev pub defaulted : Code → ℕ → List Object → Slots → Slots
defaulted co given defs s =
    let m = co.argcount - length defs in
    let first = if ltb given m then m else given in
    fill_from first (drop (given + length defs - co.argcount) defs) s

-- A call of `bind_defaults` that succeeds: no default is wanted, or the defaults are filled in and
-- nothing before them is nil.
pub bind_defaults_ok :
    (co : Code) (given : ℕ) (defs : List Object) (l l' : Locals)
    → bind_defaults co given defs l ≡ ok l'
    → ((ltb given co.argcount ≡ false) × (l' ≡ l))
      ⊎ ((count_nil (take (co.argcount - length defs - given) (drop given l.params)) ≡ 0)
          × (l' ≡ record l { params = defaulted co given defs l.params }))
unfolding bind_defaults
bind_defaults_ok co given defs l l' h =
    elim (ltb given co.argcount)
        as (λ b.
          (if b
              then (if count_nil (take (co.argcount - length defs - given) (drop given l.params))
                    == 0
                  then ok (record l { params = defaulted co given defs l.params })
                  else err missing_arguments)
              else ok l)
            ≡ ok l'
          → ((b ≡ false) × (l' ≡ l))
            ⊎ ((count_nil (take (co.argcount - length defs - given) (drop given l.params)) ≡ 0)
                × (l' ≡ record l { params = defaulted co given defs l.params }))) [
                  | true ↦ λ h.
                      let (e, e') =
                        if-ok-err
                          (count_nil
                              (take (co.argcount - length defs - given) (drop given l.params))
                            == 0)
                          _ l' _ h in
                      inr (ground arith, sym e')
                  | false ↦ λ h. inl (refl, sym (ok_injective h))
                ]
      h

pub bind_defaults-Extends :
    (co : Code) (given : ℕ) (defs : List Object) (l l' : Locals)
    → bind_defaults co given defs l ≡ ok l'
    → Extends l.params l'.params
bind_defaults-Extends co given defs l l' h = elim (bind_defaults_ok co given defs l l' h) [
  | inl (e, e') ↦ rw e' (Extends-refl l.params)
  | inr (e, e') ↦ rw e' (fill_from-Extends _ _ l.params)
]

abbrev pub named : Code → Keywords → Slots → Slots
named co kwdefs s = fill_keyword_only kwdefs (drop co.argcount co.names) (drop co.argcount s)

pub bind_keyword_only_ok :
    (co : Code) (kwdefs : Keywords) (l l' : Locals)
    → bind_keyword_only co kwdefs l ≡ ok l'
    → ((ltb 0 co.kwonlyargcount ≡ false) × (l' ≡ l))
      ⊎ ((count_nil (named co kwdefs l.params) ≡ 0)
          × (l' ≡ record l { params = take co.argcount l.params ++ named co kwdefs l.params }))
unfolding bind_keyword_only
bind_keyword_only_ok co kwdefs l l' h =
    elim (ltb 0 co.kwonlyargcount)
        as (λ b.
          (if b
              then (if count_nil (named co kwdefs l.params) == 0
                  then ok
                      (record l { params = take co.argcount l.params ++ named co kwdefs l.params })
                  else err missing_arguments)
              else ok l)
            ≡ ok l'
          → ((b ≡ false) × (l' ≡ l))
            ⊎ ((count_nil (named co kwdefs l.params) ≡ 0)
                × (l' ≡ record l {
                  params = take co.argcount l.params ++ named co kwdefs l.params;
                }))) [
                  | false ↦ λ h. inl (refl, sym (ok_injective h))
                  | true ↦ λ h.
                      let (e, e') =
                        if-ok-err (count_nil (named co kwdefs l.params) == 0) _ l' _ h in
                      inr (ground arith, sym e')
                ]
      h

pub bind_keyword_only-Extends :
    (co : Code) (kwdefs : Keywords) (l l' : Locals)
    → bind_keyword_only co kwdefs l ≡ ok l'
    → Extends l.params l'.params
bind_keyword_only-Extends co kwdefs l l' h = elim (bind_keyword_only_ok co kwdefs l l' h) [
  | inl (e, e') ↦ rw e' (Extends-refl l.params)
  | inr (e, e') ↦ rw e' (behind-Extends co.argcount l.params _ (fill_keyword_only-Extends _ _ _))
]
