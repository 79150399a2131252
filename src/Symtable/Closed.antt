-- ===== src/Symtable/Closed.antt =====
-- symtable/symtable.go: the free names of a block and the names bound around it.
use taipan.Prelude.{
  ◌≡◌, sym, subst, ap, ◌∙◌, Bool, false, ◌⊎◌, inl, inr, Option, none, some, [], String, Bool-cases,
}
use taipan.Exceptions.{ok, >>=-eq-ok, ok_injective}
use taipan.Symtable.{
  BlockType, function_block, class_block, module_block, StringSet, contains, update, elements,
  Names,
}
use taipan.Symtable.Analyze.{
  SymTable, table, Children, no_child, child, analyze_names, new_bound, new_global, resolve_cells,
  close_block, start, analyze_block, analyze_children, analyze,
}
use taipan.Symtable.Sets.{
  In, In-add, In-update, In-discard, not-In-nil, true_ne_false, analyze_cells-free,
}
use taipan.Symtable.Kept.{Kept, start-Kept, analyze_names-Kept}

pub fresh : (s : StringSet) (k : String) → In k (update [] s) → In k s
fresh s k h = elim (In-update [] s k h) [ inl a ↦ absurd (not-In-nil k a) | inr a ↦ a ]

pub of_children : (s : StringSet) (k : String) → In k [] ⊎ In k s → In k s
of_children s k (inl a) = absurd (not-In-nil k a)
of_children s k (inr a) = a

-- A free name of the children that the block does not resolve is bound around the block.
resolve_cells-bound :
    (type : BlockType) (free : StringSet) (bound : Option StringSet) (n : Names)
    (all_free : StringSet) (k : String)
    → Kept free bound n
    → ((j : String) → In j all_free → In j (new_bound type bound n))
    → In k (resolve_cells type n.scopes (update [] all_free)).1
    → In k (elements bound)
unfolding resolve_cells new_bound
resolve_cells-bound function_block free bound n all_free k i f h =
    let (a, l) = analyze_cells-free n.scopes (update [] all_free) k h in
    elim (In-update (update [] n.local) (elements n.bound) k (f k (fresh all_free k a))) [
      | inl b ↦ absurd (true_ne_false (sym (i.of_local k (fresh n.local k b)) ∙ l))
      | inr b ↦ i.of_bound k b
    ]
resolve_cells-bound class_block free bound n all_free k i f h =
    let (a, l) = In-discard (update [] all_free) "__class__" k h in
    elim (In-add (update [] (elements bound)) "__class__" k (f k (fresh all_free k a))) [
      | inl e ↦ absurd (true_ne_false (sym e ∙ l))
      | inr b ↦ fresh (elements bound) k b
    ]
resolve_cells-bound module_block free bound n all_free k i f h =
    i.of_bound k (fresh (elements n.bound) k (f k (fresh all_free k h)))

mutual
  unfolding analyze_block analyze_children close_block

  block_bound :
      (st : SymTable) (bound : Option StringSet) (free global : StringSet) (st' : SymTable)
      (free' : StringSet) (k : String)
      → analyze_block st bound free global ≡ ok (st', free')
      → In k free'
      → In k free ⊎ In k (elements bound)
  block_bound (table b cs) bound free global st' free' k h m =
      let (n, e, h₁) =
        >>=-eq-ok (analyze_names b.nested b.symbols (start b bound free global)) _ h in
      let (r, e₁, h₂) =
        >>=-eq-ok (analyze_children cs (new_bound b.type bound n) (new_global b.type global n) []) _
          h₁ in
      let i =
        analyze_names-Kept free bound b.nested b.symbols _ n (start-Kept b bound free global) e in
      let eq = ap (λ x. x.1) (ok_injective h₂) in
      let m' : In k (update n.free (resolve_cells b.type n.scopes (update [] r.1)).1) =
        subst (λ s. In k s) (sym eq) m in
      elim (In-update n.free _ k m') [
        | inl a ↦ i.of_free k a
        | inr a ↦ inr (
            resolve_cells-bound b.type free bound n r.1 k i
              (λ j a'. of_children (new_bound b.type bound n) j (
                children_bound cs (new_bound b.type bound n) (new_global b.type global n) [] r.0 r.1
                  r.2 j e₁ a'))
              a)
      ]

  pub children_bound :
      (cs : Children) (bound global all_free : StringSet) (cs' : Children) (all_free' : StringSet)
      (f : Bool) (k : String)
      → analyze_children cs bound global all_free ≡ ok (cs', all_free', f)
      → In k all_free'
      → In k all_free ⊎ In k bound
  children_bound no_child bound global all_free cs' all_free' f k h m =
      inl (subst (λ s. In k s) (sym (ap (λ x. x.1) (ok_injective h))) m)
  children_bound (child c cs) bound global all_free cs' all_free' f k h m =
      let (r, e, h₁) =
        >>=-eq-ok (analyze_block c (some (update [] bound)) [] (update [] global)) _ h in
      let (s, e₁, h₂) = >>=-eq-ok (analyze_children cs bound global (update all_free r.1)) _ h₁ in
      let m' : In k s.1 = subst (λ s. In k s) (sym (ap (λ x. x.1) (ok_injective h₂))) m in
      elim (children_bound cs bound global (update all_free r.1) s.0 s.1 s.2 k e₁ m') [
        | inr a ↦ inr a
        | inl a ↦ elim (In-update all_free r.1 k a) [
          | inl a' ↦ inl a'
          | inr a' ↦ inr (
              fresh bound k (
                of_children (update [] bound) k
                  (block_bound c (some (update [] bound)) [] (update [] global) r.0 r.1 k e a')))
        ]
      ]

-- Each free name that the analysis of a block answers is one of those that it is given, or is bound
-- around the block.
pub analyze_block-bound :
    (st : SymTable) (bound : Option StringSet) (free global : StringSet) (st' : SymTable)
    (free' : StringSet) (k : String)
    → analyze_block st bound free global ≡ ok (st', free')
    → In k free'
    → In k free ⊎ In k (elements bound)
analyze_block-bound st bound free global st' free' k h m =
    block_bound st bound free global st' free' k h m

-- When the analysis of a module succeeds, no name is in the set of free names that it ends with.
pub analyze_closed :
    (st st' : SymTable) (free : StringSet) (k : String)
    → analyze st ≡ ok (st', free)
    → contains free k ≡ false
unfolding analyze
analyze_closed st st' free k h = elim (Bool-cases (contains free k)) [
  | inl m ↦ absurd (not-In-nil k (of_children [] k (block_bound st none [] [] st' free k h m)))
  | inr e ↦ e
]
