-- ===== src/Vm/Unwind/Cut.antt =====
-- Cutting a stack down to a level.
use taipan.Prelude.{
  ℕ, zero, suc, ◌+◌, ◌-◌, ◌≤◌, ◌≡◌, refl, List, [], ◌∷◌, ◌++◌, length, drop, length-append,
  length-drop, arith, ap, sym, ◌∙◌,
}
use taipan.Vm.State.{Object}
use taipan.Vm.Unwind.{cut}

drop-length-append : (xs ys : List Object) → drop (length xs) (xs ++ ys) ≡ ys
drop-length-append [] ys = refl
drop-length-append (x ∷ xs) ys = drop-length-append xs ys

pub length-cut : (n : ℕ) (s : List Object) → n ≤ length s → length (cut n s) ≡ n
length-cut n s h = omega (arith, length-drop (length s - n) s)

pub cut-append : (high low : List Object) → cut (length low) (high ++ low) ≡ low
cut-append high low =
    ap (λ (n : ℕ). drop n (high ++ low)) (omega (arith, length-append high low))
    ∙ drop-length-append high low

drop_nil : (n : ℕ) → drop {A = Object} n [] ≡ []
drop_nil zero = refl
drop_nil (suc n) = refl

drop-drop : (m n : ℕ) (s : List Object) → drop m (drop n s) ≡ drop (n + m) s
drop-drop m zero s = ap (λ (k : ℕ). drop k s) (omega arith)
drop-drop m (suc n) [] = drop_nil m ∙ sym (drop_nil (suc n + m))
drop-drop m (suc n) (x ∷ s) =
    let e : suc (n + m) ≡ suc n + m = omega arith in
    drop-drop m n s ∙ ap (λ (k : ℕ). drop k (x ∷ s)) e

pub cut-cut : (m n : ℕ) (s : List Object) → m ≤ n → n ≤ length s → cut m (cut n s) ≡ cut m s
cut-cut m n s h k =
    drop-drop (length (cut n s) - m) (length s - n) s
    ∙ ap (λ (i : ℕ). drop i s) (omega (arith, length-cut n s k))

-- A level at or above the height cuts nothing.
pub cut_high : (n : ℕ) (s : List Object) → length s ≤ n → cut n s ≡ s
cut_high n s h = let e : length s - n ≡ 0 = omega arith in ap (λ (i : ℕ). drop i s) e
