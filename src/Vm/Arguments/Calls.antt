-- ===== src/Vm/Arguments/Calls.antt =====
-- vm/eval.go: what a call of `EvalCode` has in its parameters once the arguments are bound, and the
-- calls that it refuses.
use taipan.Prelude.{
  ℕ, ◌<◌, ◌≤◌, ◌≡◌, ◌⊎◌, refl, ap, ◌∙◌, sym, subst, Bool, true, false, ◌&&◌, not, Option, none,
  some, List, [], ◌∷◌, String, length, drop, length-drop, get_or, get_elem?, ltb, if◌then◌else◌,
  inl, inr, arith,
}
use native.Mathlib.Decide.{dec_lt}
use taipan.Vm.State.{Object}
use taipan.Exceptions.{ok, >>=-eq-ok, ok_injective, if-ok-err}
use taipan.Vm.Arguments.{
  Code, total_args, Locals, Keywords, is_nil, first_locals, bind_parameter, bind_other, find_name,
  bind_keyword, bind_keywords, bind_defaults, bind_keyword_only, bind_arguments,
}
use taipan.Vm.Arguments.Extends.{
  bind_keywords-Extends, bind_defaults-Extends, bind_defaults_ok, bind_keyword_only-Extends,
  bind_keyword_only_ok, named, fill_keyword_only-Extends,
}
use taipan.Vm.Arguments.Complete.{
  IsBound, Extends-IsBound, count_nil-IsBound, behind-IsBound, defaulted-IsBound, element,
  length-first_locals, get_or-first_locals, bind_arguments-Stages,
}

-- The positional parameters are bound behind the defaults.
bind_defaults-IsBound :
    (co : Code) (given : ℕ) (defs : List Object) (l l' : Locals) (i : ℕ)
    → co.argcount ≤ length l.params
    → ((j : ℕ) → j < given → j < co.argcount → IsBound l.params j)
    → bind_defaults co given defs l ≡ ok l'
    → i < co.argcount
    → IsBound l'.params i
bind_defaults-IsBound co given defs l l' i h f e k = elim (bind_defaults_ok co given defs l l' e) [
  | inl (g, same) ↦ subst (λ x. IsBound x.params i) (sym same) (f i (ground arith) k)
  | inr (none_missing, filled) ↦
      subst (λ x. IsBound x.params i) (sym filled)
        (defaulted-IsBound co given defs l.params i none_missing h f k)
]

-- So are the keyword-only parameters behind their defaults.
bind_keyword_only-IsBound :
    (co : Code) (kwdefs : Keywords) (l l' : Locals) (i : ℕ)
    → length l.params ≡ total_args co
    → bind_keyword_only co kwdefs l ≡ ok l'
    → co.argcount ≤ i
    → i < total_args co
    → IsBound l'.params i
bind_keyword_only-IsBound co kwdefs l l' i size e h k =
    elim (bind_keyword_only_ok co kwdefs l l' e) [
      | inl (g, same) ↦ absurd (ground (arith, h, k))
      | inr (none_missing, filled) ↦
          let wide =
            (fill_keyword_only-Extends kwdefs (drop co.argcount co.names)
              (drop co.argcount l.params)).0 in
          let rest = length-drop co.argcount l.params in
          subst (λ x. IsBound x.params i) (sym filled)
            (behind-IsBound co.argcount l.params (named co kwdefs l.params) i h
              (omega (arith, size))
              (λ j h'.
                count_nil-IsBound (named co kwdefs l.params) none_missing j
                  (omega (arith, wide, rest)))
              (omega (arith, size)))
    ]

-- A call whose arguments are bound without an error leaves no parameter nil, and neither adds nor
-- drops one.
pub bind_arguments-IsBound :
    (co : Code) (args : List Object) (kws : Keywords) (defs : List Object) (kwdefs : Keywords)
    (l : Locals) (i : ℕ)
    → bind_arguments co args kws defs kwdefs ≡ ok l
    → i < total_args co
    → (length l.params ≡ total_args co) × IsBound l.params i
bind_arguments-IsBound co args kws defs kwdefs l i h k =
    let (l₁, l₂, e₁, guard, e₂, e₃) = bind_arguments-Stages co args kws defs kwdefs l h in
    let x₁ = bind_keywords-Extends co kws (first_locals co args) l₁ e₁ in
    let x₂ = bind_defaults-Extends co (length args) defs l₁ l₂ e₂ in
    let x₃ = bind_keyword_only-Extends co kwdefs l₂ l e₃ in
    let s₁ : length l₁.params ≡ total_args co = x₁.0 ∙ length-first_locals co args in
    let s₂ : length l₂.params ≡ total_args co = x₂.0 ∙ s₁ in
    (
      x₃.0 ∙ s₂,
      elim (dec_lt i co.argcount) [
        | no n ↦ bind_keyword_only-IsBound co kwdefs l₂ l i s₂ e₃ (omega arith) k
        | yes p ↦ Extends-IsBound l₂.params l.params i x₃ (
            bind_defaults-IsBound co (length args) defs l₁ l₂ i (omega (arith, s₁))
              (λ j h₁ h₂.
                let (a, e) = element args j h₁ in
                rw (x₁.1 j a (get_or-first_locals co args j a h₂ e)) refl)
              e₂ p)
      ],
    )

within : (b : Bool) (m n : ℕ) → (ltb m n && not b) ≡ false → (b ≡ true) ⊎ (n ≤ m)
within true m n h = inl refl
within false m n h = inr (ground arith)

bind_parameter-rest :
    (j : ℕ) (v : Object) (l l' : Locals) → bind_parameter j v l ≡ ok l' → l'.rest ≡ l.rest
unfolding bind_parameter
bind_parameter-rest j v l l' h =
    ap (λ x. x.rest) (sym (if-ok-err (is_nil (get_or l.params j none)) _ l' _ h).1)

bind_other-rest :
    (k : String) (v : Object) (d : Option Keywords) (l l' : Locals)
    → bind_other k v d l ≡ ok l'
    → l'.rest ≡ l.rest
unfolding bind_other
bind_other-rest k v none l l' h = cc
bind_other-rest k v (some d) l l' h = ap (λ x. x.rest) (sym (ok_injective h))

bind_keyword-rest :
    (co : Code) (k : String) (v : Object) (l l' : Locals)
    → bind_keyword co k v l ≡ ok l'
    → l'.rest ≡ l.rest
unfolding bind_keyword
bind_keyword-rest co k v l l' h =
    elim (find_name k co.names)
        as (λ f.
          elim f [ some j ↦ bind_parameter j v l | none ↦ bind_other k v l.keywords l ] ≡ ok l'
          → l'.rest ≡ l.rest) [
            | some j ↦ bind_parameter-rest j v l l'
            | none ↦ bind_other-rest k v l.keywords l l'
          ]
      h

bind_keywords-rest :
    (co : Code) (kws : Keywords) (l l' : Locals) → bind_keywords co kws l ≡ ok l' → l'.rest ≡ l.rest
unfolding bind_keywords
bind_keywords-rest co [] l l' h = ap (λ x. x.rest) (sym (ok_injective h))
bind_keywords-rest co ((k, v) ∷ kws) l l' h =
    let (l₁, e, e') = >>=-eq-ok (bind_keyword co k v l) _ h in
    bind_keywords-rest co kws l₁ l' e' ∙ bind_keyword-rest co k v l l₁ e

bind_defaults-rest :
    (co : Code) (given : ℕ) (defs : List Object) (l l' : Locals)
    → bind_defaults co given defs l ≡ ok l'
    → l'.rest ≡ l.rest
bind_defaults-rest co given defs l l' h = elim (bind_defaults_ok co given defs l l' h) [
  | inl (e, e') ↦ ap (λ x. x.rest) e'
  | inr (e, e') ↦ ap (λ x. x.rest) e'
]

bind_keyword_only-rest :
    (co : Code) (kwdefs : Keywords) (l l' : Locals)
    → bind_keyword_only co kwdefs l ≡ ok l'
    → l'.rest ≡ l.rest
bind_keyword_only-rest co kwdefs l l' h = elim (bind_keyword_only_ok co kwdefs l l' h) [
  | inl (e, e') ↦ ap (λ x. x.rest) e'
  | inr (e, e') ↦ ap (λ x. x.rest) e'
]

-- A positional argument that has a positional parameter at its place stands there once a call has
-- bound its arguments: no keyword or default replaces it.
pub bind_arguments-positional :
    (co : Code) (args : List Object) (kws : Keywords) (defs : List Object) (kwdefs : Keywords)
    (l : Locals) (i : ℕ) (a : Object)
    → bind_arguments co args kws defs kwdefs ≡ ok l
    → i < co.argcount
    → get_elem? args i ≡ some a
    → get_or l.params i none ≡ some a
bind_arguments-positional co args kws defs kwdefs l i a h k e =
    let (l₁, l₂, e₁, guard, e₂, e₃) = bind_arguments-Stages co args kws defs kwdefs l h in
    let first = first_locals co args in
    let x₁ = bind_keywords-Extends co kws first l₁ e₁ in
    let x₂ = bind_defaults-Extends co (length args) defs l₁ l₂ e₂ in
    let x₃ = bind_keyword_only-Extends co kwdefs l₂ l e₃ in
    x₃.1 i a (x₂.1 i a (x₁.1 i a (get_or-first_locals co args i a k e)))

-- The positional arguments behind the positional parameters of a call that succeeds are the tuple
-- of `*args`, in order; without `*args` there are none.
pub bind_arguments-rest :
    (co : Code) (args : List Object) (kws : Keywords) (defs : List Object) (kwdefs : Keywords)
    (l : Locals)
    → bind_arguments co args kws defs kwdefs ≡ ok l
    → (l.rest ≡ (if co.varargs then some (drop co.argcount args) else none))
      × ((co.varargs ≡ true) ⊎ (length args ≤ co.argcount))
unfolding first_locals
bind_arguments-rest co args kws defs kwdefs l h =
    let (l₁, l₂, e₁, guard, e₂, e₃) = bind_arguments-Stages co args kws defs kwdefs l h in
    (
      bind_keyword_only-rest co kwdefs l₂ l e₃
          ∙ bind_defaults-rest co (length args) defs l₁ l₂ e₂
          ∙ bind_keywords-rest co kws (first_locals co args) l₁ e₁,
      within co.varargs co.argcount (length args) guard,
    )
