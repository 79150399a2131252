-- ===== src/Symtable/Sets.antt =====
-- symtable/symtable.go: what the operations of StringSet and `AnalyzeCells` leave in a set.
use taipan.Prelude.{
  ◌≡◌, refl, sym, subst, ◌∙◌, Bool, true, false, ◌&&◌, ◌||◌, ◌⊎◌, inl, inr, [], ◌∷◌, String, str_eq,
  eq_iff, if◌then◌else◌, Bool-cases,
}
use taipan.Symtable.{Scopes, StringSet, contains, add, update, discard}
use taipan.Symtable.Analyze.{analyze_cells, is_local}

pub not-In-nil : (k : String) → ¬ (contains [] k ≡ true)
unfolding contains
not-In-nil k h = cc

pub true_ne_false : ¬ (true ≡ false)
true_ne_false h = cc

abbrev pub In : String → StringSet → Type 0
In k s = contains s k ≡ true

pub or-true : (a b : Bool) → (a || b) ≡ true → (a ≡ true) ⊎ (b ≡ true)
or-true true b h = inl refl
or-true false b h = inr h

pub In-cons : (x k : String) (s : StringSet) → In k (x ∷ s) → (str_eq x k ≡ true) ⊎ In k s
unfolding contains
In-cons x k s h = or-true (str_eq x k) (contains s k) h

pub In-add : (s : StringSet) (x k : String) → In k (add s x) → (str_eq x k ≡ true) ⊎ In k s
unfolding add
In-add s x k h =
    elim (contains s x) as (λ b. In k (if b then s else x ∷ s) → (str_eq x k ≡ true) ⊎ In k s) [
      | true ↦ λ h. inr h
      | false ↦ λ h. In-cons x k s h
    ]
      h

pub cons-In : (x k : String) (s : StringSet) → (str_eq x k ≡ true) ⊎ In k s → In k (x ∷ s)
unfolding contains
cons-In x k s (inl h) = rw h refl
cons-In x k s (inr h) = elim (str_eq x k) as (λ b. (b || contains s k) ≡ true) [
  | true ↦ refl
  | false ↦ h
]

pub In-update : (s t : StringSet) (k : String) → In k (update s t) → In k s ⊎ In k t
unfolding update
In-update s [] k h = inl h
In-update s (x ∷ t) k h = elim (In-update (add s x) t k h) [
  | inl a ↦ elim (In-add s x k a) [ inl e ↦ inr (cons-In x k t (inl e)) | inr b ↦ inl b ]
  | inr b ↦ inr (cons-In x k t (inr b))
]

pub str_eq-true : (x k : String) → str_eq x k ≡ true → x ≡ k
str_eq-true x k h = (eq_iff x k).0 h

pub str_eq_refl : (k : String) → str_eq k k ≡ true
str_eq_refl k = (eq_iff k k).1 refl

pub discard-In : (s : StringSet) (x k : String) → str_eq x k ≡ false → In k s → In k (discard s x)
unfolding discard
discard-In [] x k e h = h
discard-In (y ∷ s) x k e h = elim (Bool-cases (str_eq y x)) [
  | inl e' ↦ rw e' (
      discard-In s x k e (elim (In-cons y k s h) [
        | inl f ↦
            absurd
              (true_ne_false (sym f ∙ subst (λ z. str_eq z k ≡ false) (sym (str_eq-true y x e')) e))
        | inr a ↦ a
      ]))
  | inr e' ↦ rw e' (
      cons-In y k (discard s x)
        (elim (In-cons y k s h) [ inl f ↦ inl f | inr a ↦ inr (discard-In s x k e a) ]))
]

-- A name that equals a name other than `x` is not `x`.
other : (x y k : String) → str_eq y x ≡ false → str_eq y k ≡ true → str_eq x k ≡ false
other x y k h e = elim (Bool-cases (str_eq x k)) [
  | inl e' ↦
      let same : str_eq y x ≡ true = subst (λ z. str_eq y z ≡ true) (sym (str_eq-true x k e')) e in
      cc
  | inr e' ↦ e'
]

In-discard_if :
    (b : Bool) (s t : StringSet) (x y k : String)
    → str_eq y x ≡ b
    → (In k t → In k s × (str_eq x k ≡ false))
    → In k (if b then t else y ∷ t)
    → In k (y ∷ s) × (str_eq x k ≡ false)
In-discard_if true s t x y k e f h = let (a, g) = f h in (cons-In y k s (inr a), g)
In-discard_if false s t x y k e f h = elim (In-cons y k t h) [
  | inl e' ↦ (cons-In y k s (inl e'), other x y k e e')
  | inr a ↦ let (a', g) = f a in (cons-In y k s (inr a'), g)
]

add-In : (s : StringSet) (x k : String) → (str_eq x k ≡ true) ⊎ In k s → In k (add s x)
unfolding add
add-In s x k h = elim (Bool-cases (contains s x)) [
  | inl e ↦ rw e (elim h [ inl q ↦ subst (λ z. In z s) (str_eq-true x k q) e | inr a ↦ a ])
  | inr e ↦ rw e (cons-In x k s h)
]

pub update-In : (s t : StringSet) (k : String) → In k s ⊎ In k t → In k (update s t)
unfolding update
update-In s [] k (inl h) = h
update-In s [] k (inr h) = absurd (not-In-nil k h)
update-In s (x ∷ t) k (inl h) = update-In (add s x) t k (inl (add-In s x k (inr h)))
update-In s (x ∷ t) k (inr h) = elim (In-cons x k t h) [
  | inl e ↦ update-In (add s x) t k (inl (add-In s x k (inl e)))
  | inr a ↦ update-In (add s x) t k (inr a)
]

pub In-discard : (s : StringSet) (x k : String) → In k (discard s x) → In k s × (str_eq x k ≡ false)
unfolding discard
In-discard [] x k h = absurd (not-In-nil k h)
In-discard (y ∷ s) x k h =
    In-discard_if (str_eq y x) s (discard s x) x y k refl (In-discard s x k) h

-- The scopes make a name local.
unfoldable pub local_in : Scopes → String → Bool
local_in [] k = false
local_in ((j, c) ∷ scopes) k = (is_local c && str_eq j k) || local_in scopes k

analyze_cells_if :
    (b c l : Bool) (free : StringSet) (j k : String)
    → contains free j ≡ b
    → In k free
    → (c && b) ≡ false
    → l ≡ false
    → ((c && str_eq j k) || l) ≡ false
analyze_cells_if b false l free j k e h g f = f
analyze_cells_if true true l free j k e h g f = absurd (true_ne_false g)
analyze_cells_if false true l free j k e h g f = elim (Bool-cases (str_eq j k)) [
  | inl e' ↦
      let same : contains free j ≡ true = subst (λ x. In x free) (sym (str_eq-true j k e')) h in
      absurd (true_ne_false (sym same ∙ e))
  | inr e' ↦ rw (e', f) refl
]

and_false : (c : Bool) → ((c && false) || false) ≡ false
and_false true = refl
and_false false = refl

-- What is left of the free names behind `AnalyzeCells` was free before, and is not local.
pub analyze_cells-free :
    (scopes : Scopes) (free : StringSet) (k : String)
    → In k (analyze_cells scopes free).1
    → In k free × (local_in scopes k ≡ false)
unfolding analyze_cells local_in
analyze_cells-free [] free k h = (h, refl)
analyze_cells-free ((j, c) ∷ scopes) free k h = elim (Bool-cases (is_local c && contains free j)) [
  | inl e ↦
      let h' : In k (analyze_cells scopes (discard free j)).1 = rw e at h in
      let (a, f) = analyze_cells-free scopes (discard free j) k h' in
      let (a', g) = In-discard free j k a in (a', rw (g, f) (and_false (is_local c)))
  | inr e ↦
      let h' : In k (analyze_cells scopes free).1 = rw e at h in
      let (a, f) = analyze_cells-free scopes free k h' in
      (a, analyze_cells_if (contains free j) (is_local c) (local_in scopes k) free j k refl a e f)
]
