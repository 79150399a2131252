-- ===== src/FString/Outcome.antt =====
-- Rules for what a loop on fuel returns.
use taipan.Prelude.{Bool, true, false, if◌then◌else◌}
use taipan.FString.Scan.{Outcome, value, failure, out_of_fuel, ◌>>=◌}

-- A value satisfies `P`; the fuel does not run out.
abbrev pub Returns {ℓ} : {A : Type ℓ} → (A → Type 0) → Outcome A → Type 0
Returns P (value a) = P a
Returns P (failure e) = Unit
Returns P out_of_fuel = ⊥

pub Returns-bind {ℓ κ} :
    {A : Type ℓ} {B : Type κ} (P : A → Type 0) (Q : B → Type 0) (m : Outcome A) (f : A → Outcome B)
    → Returns P m
    → ((a : A) → P a → Returns Q (f a))
    → Returns Q (m >>= f)
Returns-bind P Q (value a) f h k = k a h
Returns-bind P Q (failure e) f h k = tt
Returns-bind P Q out_of_fuel f h k = elim h [ ]

pub Returns-if {ℓ} :
    {A : Type ℓ} (P : A → Type 0) (b : Bool) (x y : Outcome A)
    → Returns P x
    → Returns P y
    → Returns P (if b then x else y)
Returns-if P true x y hx hy = hx
Returns-if P false x y hx hy = hy

pub Returns-weaken {ℓ} :
    {A : Type ℓ} (P Q : A → Type 0) (m : Outcome A)
    → ((a : A) → P a → Q a)
    → Returns P m
    → Returns Q m
Returns-weaken P Q (value a) k h = k a h
Returns-weaken P Q (failure e) k h = tt
Returns-weaken P Q out_of_fuel k h = h
