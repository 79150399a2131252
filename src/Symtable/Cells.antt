-- ===== src/Symtable/Cells.antt =====
-- symtable/symtable.go: the free names of the children of a function, in the function.
use taipan.Prelude.{
  ◌≡◌, refl, sym, subst, ◌∙◌, Bool, true, false, ◌&&◌, ◌⊎◌, inl, inr, Option, some, [], ◌∷◌, String,
  str_eq, Bool-cases,
}
use taipan.Exceptions.{ok}
use taipan.Symtable.{
  scope_global_explicit, scope_global_implicit, Scope, scope_invalid, scope_local, scope_free,
  scope_cell, function_block, StringSet, Scopes, Symbols, contains, update, discard, elements,
  Names, scope_of,
}
use taipan.Symtable.Analyze.{
  Block, SymTable, table, Children, is_local, analyze_cells, analyze_names, analyze_children, start,
  set_scopes, record_all_free, update_symbols, close_block, new_bound, new_global,
}
use taipan.Symtable.Sets.{In, In-update, update-In, not-In-nil, true_ne_false, discard-In}
use taipan.Symtable.Captured.{
  symbol_scope, has_symbol, symbol_scope-set_scopes, has_symbol-set_scopes, record_all_free-known,
  record_all_free-new, scope_of-analyze_cells, cell_if,
}
use taipan.Symtable.Settled.{
  Settled, is_lexical, is_decided, IsDistinct, has_entry, analyze_names-Settled,
}
use taipan.Symtable.Closed.{children_bound, fresh, of_children}

analyze_cells-keeps :
    (scopes : Scopes) (free : StringSet) (k : String)
    → has_entry scopes k ≡ false
    → In k free
    → In k (analyze_cells scopes free).1
unfolding analyze_cells has_entry
analyze_cells-keeps [] free k h m = m
analyze_cells-keeps ((j, c) ∷ scopes) free k h m = elim (Bool-cases (str_eq j k)) [
  | inl e ↦ absurd (true_ne_false (rw e at h))
  | inr e ↦
      let h' : has_entry scopes k ≡ false = rw e at h in
      elim (Bool-cases (is_local c && contains free j)) [
        | inl g ↦ rw g (analyze_cells-keeps scopes (discard free j) k h' (discard-In free j k e m))
        | inr g ↦ rw g (analyze_cells-keeps scopes free k h' m)
      ]
]

abbrev pub is_captured : Scope → Bool
is_captured scope_cell = true
is_captured scope_free = true
is_captured _ = false

captured_cell :
    (c : Scope) → is_lexical c ≡ true → is_decided c ≡ true → is_captured (cell_if true c) ≡ true
captured_cell scope_local h d = refl
captured_cell scope_free h d = refl
captured_cell scope_invalid h d = absurd (true_ne_false (sym d))
captured_cell scope_cell h d = refl
captured_cell scope_global_explicit h d = absurd (true_ne_false (sym h))
captured_cell scope_global_implicit h d = absurd (true_ne_false (sym h))

abbrev pub symbols_of : SymTable → Symbols
symbols_of (table b cs) = b.symbols

start-Settled :
    (b : Block) (bound : Option StringSet) (free global : StringSet)
    → Settled (start b bound free global)
unfolding scope_of
start-Settled b bound free global = record {
  local_scope = λ k h. absurd (not-In-nil k h);
  bound_scope = λ k h. refl;
}

-- The symbols behind `close_block`, for a name that the block binds or that is bound around it.
captured_symbol :
    (symbols : Symbols) (n : Names) (all_free : StringSet) (k : String)
    → Settled n
    → (has_symbol symbols k ≡ true → is_decided (scope_of n.scopes k) ≡ true)
    → (has_symbol symbols k ≡ false
        → (scope_of n.scopes k ≡ scope_invalid) × (has_entry n.scopes k ≡ false))
    → In k all_free
    → In k n.local ⊎ In k (elements n.bound)
    → is_captured (
        symbol_scope
          (update_symbols symbols
            (analyze_cells n.scopes (update [] all_free)).0
            (elements n.bound)
            (analyze_cells n.scopes (update [] all_free)).1
            false)
          k)
      ≡ true
unfolding update_symbols
captured_symbol symbols n all_free k i decided absent m b =
    let free = update [] all_free in
    let m' : In k free = update-In [] all_free k (inr m) in
    let r = analyze_cells n.scopes free in
    elim (Bool-cases (has_symbol symbols k)) [
      | inl h ↦
          let known : symbol_scope
                (record_all_free (elements n.bound) false r.1 (set_scopes r.0 symbols)) k
              ≡ cell_if true (scope_of n.scopes k) =
            record_all_free-known (elements n.bound) r.1 (set_scopes r.0 symbols) k
              (has_symbol-set_scopes r.0 symbols k ∙ h)
            ∙ symbol_scope-set_scopes r.0 symbols k h
            ∙ scope_of-analyze_cells n.scopes free k m' in
          let lexical : is_lexical (scope_of n.scopes k) ≡ true = elim b [
            | inl l ↦ rw (i.local_scope k l) refl
            | inr o ↦ i.bound_scope k o
          ] in
          subst (λ c. is_captured c ≡ true) (sym known)
            (captured_cell (scope_of n.scopes k) lexical (decided h))
      | inr h ↦
          let (invalid, no_entry) = absent h in
          let outer : In k (elements n.bound) = elim b [
            | inl l ↦
                let clash : scope_invalid ≡ scope_local = sym invalid ∙ i.local_scope k l in
                absurd (cc)
            | inr o ↦ o
          ] in
          let new =
            record_all_free-new (elements n.bound) r.1 (set_scopes r.0 symbols) k
              (has_symbol-set_scopes r.0 symbols k ∙ h)
              (analyze_cells-keeps n.scopes free k no_entry m') outer in
          subst (λ c. is_captured c ≡ true) (sym new) refl
    ]

visible-In :
    (b : Block) (n : Names) (bound : StringSet) (k : String)
    → b.type ≡ function_block
    → In k (new_bound b.type (some bound) n)
    → In k n.local ⊎ In k (elements n.bound)
unfolding new_bound
visible-In b n bound k t h =
    let h' : In k (update (update [] n.local) (elements n.bound)) = rw t at h in
    elim (In-update (update [] n.local) (elements n.bound) k h') [
      | inl l ↦ inl (fresh n.local k l)
      | inr o ↦ inr o
    ]

-- Where a function has one symbol for each name, and the analysis of its names and of its children
-- succeeds: each name that is free in a child has, in the symbols that `AnalyzeBlock` gives the
-- function, the cell or the free scope.
pub close_block-captures :
    (b : Block) (cs cs' : Children) (bound free global : StringSet) (n : Names)
    (all_free : StringSet) (child_free : Bool) (k : String)
    → b.type ≡ function_block
    → IsDistinct b.symbols
    → analyze_names b.nested b.symbols (start b (some bound) free global) ≡ ok n
    → analyze_children cs (new_bound b.type (some bound) n) (new_global b.type global n) []
      ≡ ok (cs', all_free, child_free)
    → In k all_free
    → is_captured (symbol_scope (symbols_of (close_block b n all_free child_free cs').0) k) ≡ true
unfolding close_block scope_of has_entry
close_block-captures b cs cs' bound free global n all_free child_free k t d e e' m =
    let (i, decided, absent) =
      analyze_names-Settled b.nested b.symbols _ n d (λ j h. refl)
        (start-Settled b (some bound) free global) e in
    let visible = of_children (new_bound b.type (some bound) n) k (
      children_bound cs (new_bound b.type (some bound) n) (new_global b.type global n) [] cs'
        all_free child_free k e' m) in
    rw t (
      captured_symbol b.symbols n all_free k i (decided k) (absent k) m
        (visible-In b n bound k t visible))
