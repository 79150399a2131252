-- ===== src/Vm/Arguments/Named.antt =====
-- vm/eval.go: where `EvalCode` puts the keyword arguments of a call.
use taipan.Prelude.{
  ℕ, ◌<◌, ◌≡◌, refl, ap, ◌∙◌, sym, true, false, none, some, List, [], ◌∷◌, ◌++◌, String, length,
  get_or, get_or-set_self, arith,
}
use taipan.Vm.State.{Object}
use taipan.Exceptions.{ok, >>=-eq-ok, if-ok-err}
use taipan.Vm.Arguments.{
  Code, total_args, Locals, Keywords, is_nil, first_locals, bind_parameter, find_name, bind_keyword,
  bind_keywords, bind_arguments,
}
use taipan.Vm.Arguments.Extends.{
  bind_keywords-Extends, bind_defaults-Extends, bind_keyword_only-Extends,
}
use taipan.Vm.Arguments.Complete.{
  element, length-first_locals, get_or-first_locals, bind_arguments-Stages,
}

bind_keyword-find :
    (co : Code) (k : String) (v : Object) (l : Locals) (j : ℕ)
    → find_name k co.names ≡ some j
    → bind_keyword co k v l ≡ bind_parameter j v l
unfolding bind_keyword
bind_keyword-find co k v l j e = rw (bind_keyword, e) refl

-- The call of `bind_keyword` for one of the keywords.
bind_keywords_at :
    (co : Code) (pre post : Keywords) (k : String) (v : Object) (l l' : Locals)
    → bind_keywords co (pre ++ ((k, v) ∷ post)) l ≡ ok l'
    → (m n : Locals) × (bind_keywords co pre l ≡ ok m)
      × (bind_keyword co k v m ≡ ok n)
      × (bind_keywords co post n ≡ ok l')
unfolding bind_keywords
bind_keywords_at co [] post k v l l' h =
    let (n, e, e') = >>=-eq-ok (bind_keyword co k v l) _ h in (l, n, refl, e, e')
bind_keywords_at co ((k', v') ∷ pre) post k v l l' h =
    let (l₁, e, e') = >>=-eq-ok (bind_keyword co k' v' l) _ h in
    let (m, n, e₁, e₂, e₃) = bind_keywords_at co pre post k v l₁ l' e' in (m, n, rw e e₁, e₂, e₃)

-- A keyword argument of a call that succeeds and that names a parameter stands in that parameter,
-- wherever it stands among the keywords.
pub bind_arguments-keyword :
    (co : Code) (args : List Object) (pre post : Keywords) (k : String) (v : Object)
    (defs : List Object) (kwdefs : Keywords) (l : Locals) (j : ℕ)
    → bind_arguments co args (pre ++ ((k, v) ∷ post)) defs kwdefs ≡ ok l
    → find_name k co.names ≡ some j
    → j < total_args co
    → get_or l.params j none ≡ some v
unfolding bind_parameter
bind_arguments-keyword co args pre post k v defs kwdefs l j h e b =
    let (l₁, l₂, e₁, guard, e₂, e₃) =
      bind_arguments-Stages co args (pre ++ ((k, v) ∷ post)) defs kwdefs l h in
    let (m, n, s₁, s₂, s₃) = bind_keywords_at co pre post k v (first_locals co args) l₁ e₁ in
    let size =
      (bind_keywords-Extends co pre (first_locals co args) m s₁).0 ∙ length-first_locals co args in
    let set_ =
      (if-ok-err (is_nil (get_or m.params j none)) _ n _
        (sym (bind_keyword-find co k v m j e) ∙ s₂)).1 in
    let at : get_or n.params j none ≡ some v =
      rw (sym set_) (get_or-set_self m.params j (some v) none (omega (arith, size))) in
    let x₁ = bind_keywords-Extends co post n l₁ s₃ in
    let x₂ = bind_defaults-Extends co (length args) defs l₁ l₂ e₂ in
    let x₃ = bind_keyword_only-Extends co kwdefs l₂ l e₃ in x₃.1 j v (x₂.1 j v (x₁.1 j v at))

-- A call is refused when a keyword names a parameter that already has a positional argument.
pub bind_arguments-duplicate :
    (co : Code) (args : List Object) (pre post : Keywords) (k : String) (v : Object)
    (defs : List Object) (kwdefs : Keywords) (l : Locals) (j : ℕ)
    → find_name k co.names ≡ some j
    → j < co.argcount
    → j < length args
    → ¬ (bind_arguments co args (pre ++ ((k, v) ∷ post)) defs kwdefs ≡ ok l)
unfolding bind_parameter
bind_arguments-duplicate co args pre post k v defs kwdefs l j e b b' h =
    let (l₁, l₂, e₁, guard, e₂, e₃) =
      bind_arguments-Stages co args (pre ++ ((k, v) ∷ post)) defs kwdefs l h in
    let (m, n, s₁, s₂, s₃) = bind_keywords_at co pre post k v (first_locals co args) l₁ e₁ in
    let nil =
      (if-ok-err (is_nil (get_or m.params j none)) _ n _
        (sym (bind_keyword-find co k v m j e) ∙ s₂)).0 in
    let (a, e') = element args j b' in
    let bound =
      (bind_keywords-Extends co pre (first_locals co args) m s₁).1 j a
        (get_or-first_locals co args j a b e') in
    let clash : true ≡ false = sym nil ∙ ap is_nil bound in cc
