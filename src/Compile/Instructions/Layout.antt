-- ===== src/Compile/Instructions/Layout.antt =====
-- compile/instructions.go: what a stable pass leaves.
use mathlib.Core.Option
use taipan.Prelude.{
  ℕ, zero, suc, ◌+◌, ◌-◌, ◌<◌, ◌≡◌, refl, sym, ◌∙◌, Bool, true, false, Option, none, some, List, [],
  ◌∷◌, ◌==◌, ltb, if◌then◌else◌, arith, lt→ltb, Bool-cases, inl, inr, subst,
}
use taipan.Compile.Instructions.{
  Instruction, op, op_arg, label, jump_abs, jump_rel, Labels, u32, pos_of, set_pos, pos_changed,
  arg_size, size, resolve, pass_loop, pass, Passed, put, assemble_loop,
}

-- A jump's argument leads to its label: to its position, or there from the end of the jump.
abbrev pub Resolved : Labels → Instruction → Type 0
Resolved ls (jump_abs q o a d) = a ≡ (ls d).p
Resolved ls (jump_rel q o a d) = u32 (q.p + arg_size a) + a ≡ (ls d).p
Resolved ls x = Unit

-- Every instruction and label of the stream is where the sizes put it, and every jump is resolved.
abbrev pub Placed : Labels → ℕ → List Instruction → Type 0
Placed ls addr [] = Unit
Placed ls addr (x ∷ xs) =
    ((pos_of ls x).p ≡ addr) × Resolved ls x × Placed ls (u32 (addr + size x)) xs

-- The same positions, under whatever numbers.
abbrev pub SamePlaces : Labels → Labels → Type 0
SamePlaces ls ls' = (d : ℕ) → (ls d).p ≡ (ls' d).p

Resolved-Same :
    (ls ls' : Labels) (x : Instruction) → SamePlaces ls ls' → Resolved ls x → Resolved ls' x
Resolved-Same ls ls' (op q o) h r = tt
Resolved-Same ls ls' (op_arg q o a) h r = tt
Resolved-Same ls ls' (label d) h r = tt
Resolved-Same ls ls' (jump_abs q o a d) h r = omega (arith, h d)
Resolved-Same ls ls' (jump_rel q o a d) h r = omega (arith, h d)

set_pos-Same :
    (i addr : ℕ) (ls : Labels) (x : Instruction)
    → pos_changed addr ls x ≡ false
    → SamePlaces ls (set_pos i addr ls x).0
unfolding set_pos
set_pos-Same i addr ls (op q o) h d = refl
set_pos-Same i addr ls (op_arg q o a) h d = refl
set_pos-Same i addr ls (label e) h d = ground arith
set_pos-Same i addr ls (jump_abs q o a e) h d = refl
set_pos-Same i addr ls (jump_rel q o a e) h d = refl

pos_of-set_pos :
    (i addr : ℕ) (ls : Labels) (x : Instruction)
    → (pos_of (set_pos i addr ls x).0 (set_pos i addr ls x).1).p ≡ addr
unfolding set_pos
pos_of-set_pos i addr ls (op q o) = refl
pos_of-set_pos i addr ls (op_arg q o a) = refl
pos_of-set_pos i addr ls (label d) = ground arith
pos_of-set_pos i addr ls (jump_abs q o a d) = refl
pos_of-set_pos i addr ls (jump_rel q o a d) = refl

pub some_injective : {A : Type 0} {a b : A} → some a ≡ some b → a ≡ b
some_injective e = cc

pub none_ne : {A B : Type 0} {a : A} → none ≡ some a → B
none_ne e = cc

-- Resolving moves nothing, and what it returns is resolved.
abbrev IsResolvent : Labels → Instruction → Instruction → Type 0
IsResolvent ls x x' = ((pos_of ls x').p ≡ (pos_of ls x).p) × Resolved ls x'

resolvent : (P : Instruction → Type 0) {a b : Instruction} → some a ≡ some b → P a → P b
resolvent P e h = let e' = some_injective e in subst P e' h

resolve-IsResolvent :
    (ls : Labels) (x x' : Instruction) → resolve ls x ≡ some x' → IsResolvent ls x x'
unfolding resolve
resolve-IsResolvent ls (op q o) x' e = resolvent (IsResolvent ls (op q o)) e (refl, tt)
resolve-IsResolvent ls (op_arg q o a) x' e = resolvent (IsResolvent ls (op_arg q o a)) e (refl, tt)
resolve-IsResolvent ls (label d) x' e = resolvent (IsResolvent ls (label d)) e (refl, tt)
resolve-IsResolvent ls (jump_abs q o a d) x' e =
    resolvent (IsResolvent ls (jump_abs q o a d)) e (refl, refl)
resolve-IsResolvent ls (jump_rel q o a d) x' e =
    elim (Bool-cases (ltb (ls d).p (u32 (q.p + arg_size a)))) [
      | inl back ↦ none_ne (rw back at e)
      | inr forth ↦
          let dist = (ls d).p - u32 (q.p + arg_size a) in
          elim (Bool-cases (arg_size dist == arg_size a)) [
            | inl same ↦
                resolvent (IsResolvent ls (jump_rel q o a d)) (rw (forth, same) at e)
                  (refl, ground arith)
            | inr other ↦ none_ne (rw (forth, other) at e)
          ]
    ]

pos_of-Same :
    (ls ls' : Labels) (x : Instruction) → SamePlaces ls ls' → (pos_of ls x).p ≡ (pos_of ls' x).p
pos_of-Same ls ls' (op q o) h = refl
pos_of-Same ls ls' (op_arg q o a) h = refl
pos_of-Same ls ls' (label d) h = h d
pos_of-Same ls ls' (jump_abs q o a d) h = refl
pos_of-Same ls ls' (jump_rel q o a d) h = refl

-- What a resolving pass from `addr` leaves, if it changes no position.
abbrev Stable : Labels → ℕ → Option Passed → Type 0
Stable ls addr none = Unit
Stable ls addr (some (true, ls', xs)) = Unit
Stable ls addr (some (false, ls', xs)) = SamePlaces ls ls' × Placed ls' addr xs

bind_Stable :
    (ls : Labels) (addr : ℕ) (m : Option Instruction) (f : Instruction → Option Passed)
    → ((x : Instruction) → m ≡ some x → Stable ls addr (f x))
    → Stable ls addr (Option.bind m f)
unfolding Option.bind
bind_Stable ls addr none f h = tt
bind_Stable ls addr (some x) f h = h x refl

put-Stable :
    (ls ls₁ : Labels) (addr : ℕ) (changed : Bool) (x : Instruction) (r : Option Passed)
    → (changed ≡ false → SamePlaces ls ls₁)
    → ((pos_of ls₁ x).p ≡ addr) × Resolved ls₁ x
    → Stable ls₁ (u32 (addr + size x)) r
    → Stable ls addr (Option.map (put changed x) r)
put-Stable ls ls₁ addr changed x none h p s = tt
put-Stable ls ls₁ addr true x (some (c, ls', xs)) h p s = tt
put-Stable ls ls₁ addr false x (some (true, ls', xs)) h p s = tt
put-Stable ls ls₁ addr false x (some (false, ls', xs)) h p s = (
  λ d. h refl d ∙ s.0 d,
  (sym (pos_of-Same ls₁ ls' x s.0) ∙ p.0, Resolved-Same ls₁ ls' x s.0 p.1, s.1),
)

pass_loop-Stable :
    (xs : List Instruction) (i addr : ℕ) (ls : Labels)
    → Stable ls addr (pass_loop true i addr ls xs)
unfolding pass_loop
pass_loop-Stable [] i addr ls = (λ d. refl, tt)
pass_loop-Stable (x ∷ xs) i addr ls =
    let moved = set_pos i addr ls x in
    bind_Stable ls addr (resolve moved.0 moved.1) _ λ x' e.
      put-Stable ls moved.0 addr (pos_changed addr ls x) x' _ (set_pos-Same i addr ls x)
        (let r = resolve-IsResolvent moved.0 moved.1 x' e in
          (r.0 ∙ pos_of-set_pos i addr ls x, r.1))
        (pass_loop-Stable xs (i + 1) (u32 (addr + size x')) moved.0)

-- When a resolving pass over the stream changes no position, each instruction and each label
-- stands where the sizes of those in front of it put it, and each jump's argument leads to its
-- label.
pub pass_loop-Placed :
    (xs : List Instruction) (i addr : ℕ) (ls : Labels) {ls' : Labels} {xs' : List Instruction}
    → pass_loop true i addr ls xs ≡ some (false, ls', xs')
    → Placed ls' addr xs'
pass_loop-Placed xs i addr ls e =
    let s = pass_loop-Stable xs i addr ls in (subst (Stable ls addr) e s).1

-- A finished stream is placed from address 0 on.
abbrev pub Finished : Option (Labels × List Instruction) → Type 0
Finished none = Unit
Finished (some (ls, xs)) = Placed ls 0 xs

next_Finished :
    (fuel k : ℕ) (ls : Labels) (m : Option Passed)
    → Stable ls 0 m
    → ((ls' : Labels) (xs : List Instruction) → Finished (assemble_loop fuel (k + 1) ls' xs))
    → Finished (
        Option.bind m (λ r.
          let rest = assemble_loop fuel (k + 1) r.1 r.2 in if r.0 then rest else some (r.1, r.2)))
unfolding Option.bind
next_Finished fuel k ls none s h = tt
next_Finished fuel k ls (some (true, ls', xs)) s h = h ls' xs
next_Finished fuel k ls (some (false, ls', xs)) s h = s.1

assemble_loop-Finished :
    (fuel k : ℕ) (ls : Labels) (xs : List Instruction)
    → 0 < k
    → Finished (assemble_loop fuel k ls xs)
unfolding assemble_loop
assemble_loop-Finished zero k ls xs h = tt
assemble_loop-Finished (suc fuel) k ls xs h =
    next_Finished fuel k ls (pass k ls xs) (rw (lt→ltb 0 k h) (pass_loop-Stable xs 0 0 ls))
      (λ ls' xs'. assemble_loop-Finished fuel (k + 1) ls' xs' (omega arith))

-- The first pass moves something: the stream does not already stand where its sizes put it.
abbrev pub Moves : Labels → List Instruction → Type 0
Moves ls xs = (r : Labels × List Instruction) × (pass 0 ls xs ≡ some (true, r.0, r.1))

pub first_Finished :
    (fuel : ℕ) (ls : Labels) (xs : List Instruction)
    → Moves ls xs
    → Finished (assemble_loop (suc fuel) 0 ls xs)
unfolding assemble_loop Option.bind
first_Finished fuel ls xs (r, e) = rw e (assemble_loop-Finished fuel 1 r.0 r.1 (omega arith))
