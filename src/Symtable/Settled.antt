-- ===== src/Symtable/Settled.antt =====
-- symtable/symtable.go: the scopes behind the loop over the names of a block.
use mathlib.Core.Option
use taipan.Prelude.{
  ◌≡◌, refl, sym, subst, ◌∙◌, Bool, true, false, ◌&&◌, ◌||◌, not, Option, none, some, [], ◌∷◌,
  String, str_eq, inl, inr, Bool-cases,
}
use taipan.Exceptions.{ok, >>=-eq-ok, ok_injective, Holds, if-Holds}
use taipan.Symtable.{
  Scope, scope_invalid, scope_local, scope_free, scope_global_explicit, scope_global_implicit,
  DefUseFlags, def_bound, Symbol, StringSet, Scopes, Symbols, contains, discard, elements, Names,
  scope_of, as_global, as_free, as_local, as_implicit, analyze_global, analyze_nonlocal,
  analyze_name,
}
use taipan.Symtable.Analyze.{analyze_names}
use taipan.Symtable.Sets.{
  In, or-true, In-add, In-discard, not-In-nil, true_ne_false, str_eq-true, str_eq_refl,
}
use taipan.Symtable.Captured.{has_symbol}

-- A scope that a name bound around the block or in it can have, or none yet.
abbrev pub is_lexical : Scope → Bool
is_lexical scope_invalid = true
is_lexical scope_local = true
is_lexical scope_free = true
is_lexical _ = false

abbrev pub is_decided : Scope → Bool
is_decided scope_invalid = false
is_decided _ = true

pub record Settled (n : Names) : Type 0 where
  pub local_scope : (k : String) → In k n.local → scope_of n.scopes k ≡ scope_local
  pub bound_scope : (k : String) → In k (elements n.bound) → is_lexical (scope_of n.scopes k) ≡ true

-- The scopes have an entry for the name.
unfoldable pub has_entry : Scopes → String → Bool
has_entry [] k = false
has_entry ((j, c) ∷ scopes) k = str_eq j k || has_entry scopes k

has_entry-other :
    (j k : String) (c : Scope) (scopes : Scopes)
    → str_eq j k ≡ false
    → has_entry ((j, c) ∷ scopes) k ≡ has_entry scopes k
unfolding has_entry
has_entry-other j k c scopes e = rw e refl

-- A name has been given a scope, and the others have kept theirs.
record Decided (j : String) (n n' : Names) : Type 0 where
  settled : Settled n'
  others : (k : String) → str_eq j k ≡ false → scope_of n'.scopes k ≡ scope_of n.scopes k
  entries : (k : String) → str_eq j k ≡ false → has_entry n'.scopes k ≡ has_entry n.scopes k
  itself : is_decided (scope_of n'.scopes j) ≡ true

scope_of-same : (j : String) (c : Scope) (scopes : Scopes) → scope_of ((j, c) ∷ scopes) j ≡ c
unfolding scope_of
scope_of-same j c scopes = rw (str_eq_refl j) refl

scope_of-other :
    (j k : String) (c : Scope) (scopes : Scopes)
    → str_eq j k ≡ false
    → scope_of ((j, c) ∷ scopes) k ≡ scope_of scopes k
unfolding scope_of
scope_of-other j k c scopes e = rw e refl

-- What holds of a new scope and of the other names' scopes holds behind the step.
scope_of-cases {ℓ} :
    (P : Scope → Type ℓ) (j k : String) (c : Scope) (scopes : Scopes)
    → (j ≡ k → P c)
    → (str_eq j k ≡ false → P (scope_of scopes k))
    → P (scope_of ((j, c) ∷ scopes) k)
unfolding scope_of
scope_of-cases P j k c scopes f g = elim (Bool-cases (str_eq j k)) [
  | inl e ↦ rw e (f (str_eq-true j k e))
  | inr e ↦ rw e (g e)
]

discard_bound :
    (b : Option StringSet) (j k : String)
    → In k (elements (Option.map (λ s. discard s j) b))
    → In k (elements b) × (str_eq j k ≡ false)
discard_bound none j k h = absurd (not-In-nil k h)
discard_bound (some s) j k h = In-discard s j k h

module _ (j : String) (n : Names) (i : Settled n)
    (fresh : scope_of n.scopes j ≡ scope_invalid) where
  kept_local :
      (c : Scope) (k : String) → In k n.local → scope_of ((j, c) ∷ n.scopes) k ≡ scope_local
  kept_local c k h =
      scope_of-cases (λ x. x ≡ scope_local) j k c n.scopes
        (λ e.
          let clash : scope_invalid ≡ scope_local =
            sym fresh
            ∙ subst (λ x. scope_of n.scopes x ≡ scope_local) (sym e) (i.local_scope k h) in
          cc)
        (λ e. i.local_scope k h)

  as_global-Decided : Decided j n (as_global j n)
  unfolding as_global
  as_global-Decided = record {
    settled = record {
      local_scope = kept_local scope_global_explicit;
      bound_scope = λ k h.
          let (a, e) = discard_bound n.bound j k h in
          rw (scope_of-other j k scope_global_explicit n.scopes e) (i.bound_scope k a);
    };
    others = λ k. scope_of-other j k _ n.scopes;
    entries = λ k. has_entry-other j k _ n.scopes;
    itself = rw (scope_of-same j scope_global_explicit n.scopes) refl;
  }

  as_free-Decided : Decided j n (as_free j n)
  unfolding as_free
  as_free-Decided = record {
    settled = record {
      local_scope = kept_local scope_free;
      bound_scope = λ k h.
          scope_of-cases (λ x. is_lexical x ≡ true) j k scope_free n.scopes (λ e. refl)
            (λ e. i.bound_scope k h);
    };
    others = λ k. scope_of-other j k _ n.scopes;
    entries = λ k. has_entry-other j k _ n.scopes;
    itself = rw (scope_of-same j scope_free n.scopes) refl;
  }

  as_local-Decided : Decided j n (as_local j n)
  unfolding as_local
  as_local-Decided = record {
    settled = record {
      local_scope = λ k h. elim (In-add n.local j k h) [
        | inl e ↦
            scope_of-cases (λ x. x ≡ scope_local) j k scope_local n.scopes (λ e'. refl)
              (λ e'. absurd (true_ne_false (sym e ∙ e')))
        | inr a ↦ kept_local scope_local k a
      ];
      bound_scope = λ k h.
          scope_of-cases (λ x. is_lexical x ≡ true) j k scope_local n.scopes (λ e. refl)
            (λ e. i.bound_scope k h);
    };
    others = λ k. scope_of-other j k _ n.scopes;
    entries = λ k. has_entry-other j k _ n.scopes;
    itself = rw (scope_of-same j scope_local n.scopes) refl;
  }

  as_implicit-Decided :
      (nested : Bool) → contains (elements n.bound) j ≡ false → Decided j n (as_implicit nested j n)
  unfolding as_implicit
  as_implicit-Decided nested out = record {
    settled = record {
      local_scope = kept_local scope_global_implicit;
      bound_scope = λ k h.
          scope_of-cases (λ x. is_lexical x ≡ true) j k scope_global_implicit n.scopes
            (λ e.
              absurd (true_ne_false (sym (subst (λ x. In x (elements n.bound)) (sym e) h) ∙ out)))
            (λ e. i.bound_scope k h);
    };
    others = λ k. scope_of-other j k _ n.scopes;
    entries = λ k. has_entry-other j k _ n.scopes;
    itself = rw (scope_of-same j scope_global_implicit n.scopes) refl;
  }

  analyze_nonlocal-Decided :
      (f : DefUseFlags) (b : Option StringSet) → Holds (Decided j n) (analyze_nonlocal j f b n)
  unfolding analyze_nonlocal
  analyze_nonlocal-Decided f none = if-Holds (Decided j n) f.def_param _ _ (λ e. tt) (λ e. tt)
  analyze_nonlocal-Decided f (some b) =
      if-Holds (Decided j n) f.def_param _ _ (λ e. tt)
        (λ e. if-Holds (Decided j n) (contains b j) _ _ (λ h. as_free-Decided) (λ h. tt))

  analyze_name-Decided :
      (nested : Bool) (s : Symbol) → Holds (Decided j n) (analyze_name nested j s n)
  unfolding analyze_name analyze_global
  analyze_name-Decided nested s =
      if-Holds (Decided j n) s.flags.def_global _ _
        (λ e.
          if-Holds (Decided j n) s.flags.def_param _ _ (λ e'. tt)
            (λ e'.
              if-Holds (Decided j n) s.flags.def_nonlocal _ _ (λ f. tt) (λ f. as_global-Decided)))
        (λ e.
          if-Holds (Decided j n) s.flags.def_nonlocal _ _
            (λ f. analyze_nonlocal-Decided s.flags n.bound)
            (λ f. elim (Bool-cases (def_bound s.flags)) [
              | inl g ↦ rw g as_local-Decided
              | inr g ↦ elim (Bool-cases (contains (elements n.bound) j)) [
                | inl h ↦ rw (g, h) as_free-Decided
                | inr h ↦ rw (g, h) (as_implicit-Decided (nested && not (contains n.global j)) h)
              ]
            ]))

-- Symbols with one entry for each name.
abbrev pub IsDistinct : Symbols → Type 0
IsDistinct [] = Unit
IsDistinct ((j, s) ∷ symbols) = (has_symbol symbols j ≡ false) × IsDistinct symbols

or-false : (a b : Bool) → (a || b) ≡ false → (a ≡ false) × (b ≡ false)
or-false true b h = absurd (true_ne_false h)
or-false false b h = (refl, h)

-- The loop over the names of a block: each has a scope behind it, other names have none.
pub analyze_names-Settled :
    (nested : Bool) (symbols : Symbols) (n n' : Names)
    → IsDistinct symbols
    → ((k : String) → has_symbol symbols k ≡ true → scope_of n.scopes k ≡ scope_invalid)
    → Settled n
    → analyze_names nested symbols n ≡ ok n'
    → Settled n'
      × ((k : String) → has_symbol symbols k ≡ true → is_decided (scope_of n'.scopes k) ≡ true)
      × ((k : String)
          → has_symbol symbols k ≡ false
          → (scope_of n'.scopes k ≡ scope_of n.scopes k)
            × (has_entry n'.scopes k ≡ has_entry n.scopes k))
unfolding analyze_names has_symbol
analyze_names-Settled nested [] n n' d f i h =
    let e = ok_injective h in
    (subst Settled e i, λ k t. absurd (true_ne_false (sym t)), λ k t. rw e (refl, refl))
analyze_names-Settled nested ((j, s) ∷ symbols) n n' d f i h =
    let (m, e, e') = >>=-eq-ok (analyze_name nested j s n) _ h in
    let step : Decided j n m =
      subst (Holds (Decided j n)) e
        (analyze_name-Decided j n i (f j (rw (str_eq_refl j) refl)) nested s) in
    let apart : (k : String) → has_symbol symbols k ≡ true → str_eq j k ≡ false = λ k t.
      elim (Bool-cases (str_eq j k)) [
        | inl q ↦ absurd (
            true_ne_false
              (sym t ∙ subst (λ x. has_symbol symbols x ≡ false) (str_eq-true j k q) d.0))
        | inr q ↦ q
      ] in
    let (i', decided, rest) =
      analyze_names-Settled nested symbols m n' d.1
        (λ k t. step.others k (apart k t) ∙ f k (rw (apart k t, t) refl)) step.settled e' in
    (
      i',
      λ k t. elim (or-true (str_eq j k) (has_symbol symbols k) t) [
        | inl q ↦
            subst (λ x. is_decided (scope_of n'.scopes x) ≡ true) (str_eq-true j k q)
              (rw ((rest j d.0).0) step.itself)
        | inr u ↦ decided k u
      ],
      λ k t.
          let (q, u) = or-false (str_eq j k) (has_symbol symbols k) t in
          ((rest k u).0 ∙ step.others k q, (rest k u).1 ∙ step.entries k q),
    )
