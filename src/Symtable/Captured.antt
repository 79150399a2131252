-- ===== src/Symtable/Captured.antt =====
-- symtable/symtable.go: the scopes that `AnalyzeCells` and `Update` give a name.
use taipan.Prelude.{
  ◌≡◌, refl, sym, subst, ◌∙◌, Bool, true, false, ◌&&◌, ◌||◌, inl, inr, [], ◌∷◌, String, str_eq,
  if◌then◌else◌, Bool-cases,
}
use taipan.Symtable.{
  Scope, scope_invalid, scope_free, scope_cell, StringSet, Scopes, Symbols, contains, discard,
  scope_of,
}
use taipan.Symtable.Analyze.{is_local, analyze_cells, set_scopes, record_free, record_all_free}
use taipan.Symtable.Sets.{
  In, In-cons, not-In-nil, true_ne_false, str_eq-true, str_eq_refl, discard-In,
}

-- The scope that the symbol of a name has.
unfoldable pub symbol_scope : Symbols → String → Scope
symbol_scope [] k = scope_invalid
symbol_scope ((j, s) ∷ symbols) k = if str_eq j k then s.scope else symbol_scope symbols k

unfoldable pub has_symbol : Symbols → String → Bool
has_symbol [] k = false
has_symbol ((j, s) ∷ symbols) k = str_eq j k || has_symbol symbols k

pub symbol_scope-set_scopes :
    (scopes : Scopes) (symbols : Symbols) (k : String)
    → has_symbol symbols k ≡ true
    → symbol_scope (set_scopes scopes symbols) k ≡ scope_of scopes k
unfolding symbol_scope has_symbol set_scopes
symbol_scope-set_scopes scopes [] k h = absurd (true_ne_false (sym h))
symbol_scope-set_scopes scopes ((j, s) ∷ symbols) k h = elim (Bool-cases (str_eq j k)) [
  | inl e ↦ rw (e, str_eq-true j k e) refl
  | inr e ↦
      let h' : has_symbol symbols k ≡ true = rw e at h in
      rw e (symbol_scope-set_scopes scopes symbols k h')
]

pub has_symbol-set_scopes :
    (scopes : Scopes) (symbols : Symbols) (k : String)
    → has_symbol (set_scopes scopes symbols) k ≡ has_symbol symbols k
unfolding has_symbol set_scopes
has_symbol-set_scopes scopes [] k = refl
has_symbol-set_scopes scopes ((j, s) ∷ symbols) k = rw (has_symbol-set_scopes scopes symbols k) refl

-- A round of `Update` in a function leaves the symbols that there are, and adds a free one for a
-- bound name that has none.
record_free-known :
    (bound : StringSet) (j k : String) (symbols : Symbols)
    → has_symbol symbols k ≡ true
    → (symbol_scope (record_free bound false j symbols) k ≡ symbol_scope symbols k)
      × (has_symbol (record_free bound false j symbols) k ≡ true)
unfolding symbol_scope has_symbol record_free
record_free-known bound j k [] h = absurd (true_ne_false (sym h))
record_free-known bound j k ((i, s) ∷ symbols) h = elim (Bool-cases (str_eq i j)) [
  | inl e ↦ rw e (refl, h)
  | inr e ↦ elim (Bool-cases (str_eq i k)) [
    | inl e' ↦ rw (e, e') (refl, refl)
    | inr e' ↦
        let h' : has_symbol symbols k ≡ true = rw e' at h in
        rw (e, e') (record_free-known bound j k symbols h')
  ]
]

record_free-new :
    (bound : StringSet) (k : String) (symbols : Symbols)
    → has_symbol symbols k ≡ false
    → In k bound
    → (symbol_scope (record_free bound false k symbols) k ≡ scope_free)
      × (has_symbol (record_free bound false k symbols) k ≡ true)
unfolding symbol_scope has_symbol record_free
record_free-new bound k [] h b = rw (b, str_eq_refl k) (refl, refl)
record_free-new bound k ((i, s) ∷ symbols) h b = elim (Bool-cases (str_eq i k)) [
  | inl e ↦ absurd (true_ne_false (rw e at h))
  | inr e ↦
      let h' : has_symbol symbols k ≡ false = rw e at h in
      rw (e, e) (record_free-new bound k symbols h' b)
]

record_free-other :
    (bound : StringSet) (j k : String) (symbols : Symbols)
    → str_eq j k ≡ false
    → has_symbol (record_free bound false j symbols) k ≡ has_symbol symbols k
unfolding has_symbol record_free
record_free-other bound j k [] e = elim (Bool-cases (contains bound j)) [
  | inl b ↦ rw (b, e) refl
  | inr b ↦ rw b refl
]
record_free-other bound j k ((i, s) ∷ symbols) e = elim (Bool-cases (str_eq i j)) [
  | inl e' ↦ rw e' refl
  | inr e' ↦ rw (e', record_free-other bound j k symbols e) refl
]

pub record_all_free-known :
    (bound free : StringSet) (symbols : Symbols) (k : String)
    → has_symbol symbols k ≡ true
    → symbol_scope (record_all_free bound false free symbols) k ≡ symbol_scope symbols k
unfolding record_all_free
record_all_free-known bound [] symbols k h = refl
record_all_free-known bound (j ∷ free) symbols k h =
    let (e, h') = record_free-known bound j k symbols h in
    record_all_free-known bound free (record_free bound false j symbols) k h' ∙ e

pub record_all_free-new :
    (bound free : StringSet) (symbols : Symbols) (k : String)
    → has_symbol symbols k ≡ false
    → In k free
    → In k bound
    → symbol_scope (record_all_free bound false free symbols) k ≡ scope_free
unfolding record_all_free
record_all_free-new bound [] symbols k h m b = absurd (not-In-nil k m)
record_all_free-new bound (j ∷ free) symbols k h m b = elim (Bool-cases (str_eq j k)) [
  | inl e ↦
      let known =
        record_free-new bound j symbols
          (subst (λ x. has_symbol symbols x ≡ false) (sym (str_eq-true j k e)) h)
          (subst (λ x. In x bound) (sym (str_eq-true j k e)) b) in
      subst
        (λ x.
          symbol_scope (record_all_free bound false free (record_free bound false j symbols)) x
          ≡ scope_free)
        (str_eq-true j k e)
        (record_all_free-known bound free (record_free bound false j symbols) j known.1 ∙ known.0)
  | inr e ↦ elim (In-cons j k free m) [
    | inl f ↦ absurd (true_ne_false (sym f ∙ e))
    | inr m' ↦
        record_all_free-new bound free (record_free bound false j symbols) k
          (record_free-other bound j k symbols e ∙ h) m' b
  ]
]

-- `AnalyzeCells` makes a cell of a local name that is free in a child.
abbrev pub cell_if : Bool → Scope → Scope
cell_if b c = if is_local c && b then scope_cell else c

pub scope_of-analyze_cells :
    (scopes : Scopes) (free : StringSet) (k : String)
    → In k free
    → scope_of (analyze_cells scopes free).0 k ≡ cell_if true (scope_of scopes k)
unfolding analyze_cells scope_of
scope_of-analyze_cells [] free k h = refl
scope_of-analyze_cells ((j, c) ∷ scopes) free k h = elim (Bool-cases (str_eq j k)) [
  | inl e ↦
      let h' : contains free j ≡ true = subst (λ x. In x free) (sym (str_eq-true j k e)) h in
      elim (Bool-cases (is_local c)) [ inl l ↦ rw (l, h', e, l) refl | inr l ↦ rw (l, e, l) refl ]
  | inr e ↦ elim (Bool-cases (is_local c && contains free j)) [
    | inl g ↦ rw (g, e) (scope_of-analyze_cells scopes (discard free j) k (discard-In free j k e h))
    | inr g ↦ rw (g, e) (scope_of-analyze_cells scopes free k h)
  ]
]
