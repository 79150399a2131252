-- ===== src/Symtable/Kept.antt =====
-- symtable/symtable.go: what the loop over the names of a block keeps.
use mathlib.Core.Option
use taipan.Prelude.{
  ◌≡◌, refl, subst, Bool, true, false, ◌&&◌, ◌||◌, not, ◌⊎◌, inl, inr, Option, none, some, [], ◌∷◌,
  String, str_eq, if◌then◌else◌,
}
use taipan.Exceptions.{ok, >>=-eq-ok, ok_injective, Holds, if-Holds}
use taipan.Symtable.{
  Scope, scope_local, scope_free, scope_global_explicit, scope_global_implicit, DefUseFlags,
  def_bound, Symbol, StringSet, Symbols, contains, discard, elements, Names, as_global, as_free,
  as_local, as_implicit, analyze_global, analyze_nonlocal, analyze_name,
}
use taipan.Symtable.Analyze.{Block, is_local, analyze_names, start}
use taipan.Symtable.Sets.{In, In-add, In-discard, not-In-nil, str_eq-true, local_in}

-- What the loop over the names keeps: the free names come from `free` or are bound around the
-- block, the bound names only become fewer, and a name in `local` has the local scope.
pub record Kept (free : StringSet) (bound : Option StringSet) (n : Names) : Type 0 where
  pub of_free : (k : String) → In k n.free → In k free ⊎ In k (elements bound)
  pub of_bound : (k : String) → In k (elements n.bound) → In k (elements bound)
  pub of_local : (k : String) → In k n.local → local_in n.scopes k ≡ true

or_true : (b : Bool) → (b || true) ≡ true
or_true true = refl
or_true false = refl

module _ (free : StringSet) (bound : Option StringSet) where
  late_local :
      (j : String) (c : Scope) (n : Names)
      → Kept free bound n
      → (k : String) → In k n.local
      → local_in ((j, c) ∷ n.scopes) k ≡ true
  unfolding local_in
  late_local j c n i k h = rw (i.of_local k h) (or_true (is_local c && str_eq j k))

  discard_bound :
      (b : Option StringSet) (j : String)
      → ((k : String) → In k (elements b) → In k (elements bound))
      → (k : String) → In k (elements (Option.map (λ s. discard s j) b))
      → In k (elements bound)
  discard_bound none j f k h = f k h
  discard_bound (some s) j f k h = f k (In-discard s j k h).0

  as_global-Kept : (k : String) (n : Names) → Kept free bound n → Kept free bound (as_global k n)
  unfolding as_global
  as_global-Kept j n i = record {
    of_free = i.of_free;
    of_bound = discard_bound n.bound j i.of_bound;
    of_local = late_local j scope_global_explicit n i;
  }

  as_free-Kept :
      (j : String) (n : Names)
      → In j (elements n.bound)
      → Kept free bound n
      → Kept free bound (as_free j n)
  unfolding as_free
  as_free-Kept j n h i = record {
    of_free = λ k h'. elim (In-add n.free j k h') [
      | inl e ↦ inr (subst (λ x. In x (elements bound)) ((str_eq-true j k e)) (i.of_bound j h))
      | inr a ↦ i.of_free k a
    ];
    of_bound = i.of_bound;
    of_local = late_local j scope_free n i;
  }

  as_local-Kept : (j : String) (n : Names) → Kept free bound n → Kept free bound (as_local j n)
  unfolding as_local local_in
  as_local-Kept j n i = record {
    of_free = i.of_free;
    of_bound = i.of_bound;
    of_local = λ k h. elim (In-add n.local j k h) [
      | inl e ↦ rw e refl
      | inr a ↦ late_local j scope_local n i k a
    ];
  }

  as_implicit-Kept :
      (nested : Bool) (j : String) (n : Names)
      → Kept free bound n
      → Kept free bound (as_implicit nested j n)
  unfolding as_implicit
  as_implicit-Kept nested j n i = record {
    of_free = i.of_free;
    of_bound = i.of_bound;
    of_local = late_local j scope_global_implicit n i;
  }

  analyze_global-Kept :
      (j : String) (f : DefUseFlags) (n : Names)
      → Kept free bound n
      → Holds (Kept free bound) (analyze_global j f n)
  unfolding analyze_global
  analyze_global-Kept j f n i =
      if-Holds (Kept free bound) f.def_param _ _ (λ e. tt)
        (λ e. if-Holds (Kept free bound) f.def_nonlocal _ _ (λ e'. tt) (λ e'. as_global-Kept j n i))

  analyze_nonlocal-Kept :
      (j : String) (f : DefUseFlags) (b : Option StringSet) (n : Names)
      → b ≡ n.bound
      → Kept free bound n
      → Holds (Kept free bound) (analyze_nonlocal j f b n)
  unfolding analyze_nonlocal
  analyze_nonlocal-Kept j f none n e i =
      if-Holds (Kept free bound) f.def_param _ _ (λ e'. tt) (λ e'. tt)
  analyze_nonlocal-Kept j f (some b) n e i =
      if-Holds (Kept free bound) f.def_param _ _ (λ e'. tt)
        (λ e'.
          if-Holds (Kept free bound) (contains b j) _ _
            (λ h. as_free-Kept j n (subst (λ x. In j (elements x)) e h) i) (λ h. tt))

  if-Kept :
      (b : Bool) (m n : Names)
      → (b ≡ true → Kept free bound m)
      → Kept free bound n
      → Kept free bound (if b then m else n)
  if-Kept true m n f h = f refl
  if-Kept false m n f h = h

  analyze_name-Kept :
      (nested : Bool) (j : String) (s : Symbol) (n : Names)
      → Kept free bound n
      → Holds (Kept free bound) (analyze_name nested j s n)
  unfolding analyze_name
  analyze_name-Kept nested j s n i =
      if-Holds (Kept free bound) s.flags.def_global _ _ (λ e. analyze_global-Kept j s.flags n i)
        (λ e.
          if-Holds (Kept free bound) s.flags.def_nonlocal _ _
            (λ f. analyze_nonlocal-Kept j s.flags n.bound n refl i)
            (λ f.
              if-Kept (def_bound s.flags) _ _ (λ g. as_local-Kept j n i)
                (if-Kept (contains (elements n.bound) j) _ _ (λ h. as_free-Kept j n h i)
                  (as_implicit-Kept (nested && not (contains n.global j)) j n i))))

  pub analyze_names-Kept :
      (nested : Bool) (symbols : Symbols) (n n' : Names)
      → Kept free bound n
      → analyze_names nested symbols n ≡ ok n'
      → Kept free bound n'
  unfolding analyze_names
  analyze_names-Kept nested [] n n' i h = subst (Kept free bound) (ok_injective h) i
  analyze_names-Kept nested ((k, s) ∷ symbols) n n' i h =
      let (m, e, e') = >>=-eq-ok (analyze_name nested k s n) _ h in
      analyze_names-Kept nested symbols m n'
        (subst (Holds (Kept free bound)) e (analyze_name-Kept nested k s n i)) e'

pub start-Kept :
    (b : Block) (bound : Option StringSet) (free global : StringSet)
    → Kept free bound (start b bound free global)
start-Kept b bound free global = record {
  of_free = λ k h. inl h;
  of_bound = λ k h. h;
  of_local = λ k h. absurd (not-In-nil k h);
}
