-- ===== src/Vm/Unwind/Nested.antt =====
-- vm/eval.go: unwinding on a well-nested block stack.
use mathlib.Core.Option
use taipan.Prelude.{
  ℕ, ◌+◌, ◌≤◌, ◌≡◌, ◌⊎◌, inl, refl, sym, ◌∙◌, Bool, true, false, ◌&&◌, ◌||◌, Option, none, some,
  List, [], ◌∷◌, length, if◌then◌else◌, arith,
}
use taipan.Prelude.Int.{ℤ}
use taipan.Vm.State.{Object, int, Vm, TryBlock, Why, why_not, why_continue, done}
use taipan.Vm.Unwind.{
  unwind, unwind_loop, unwind_block, unwind_except_handler, enter_handler, enter_finally, cut,
  is_handler, restore_exc, as_type, as_traceback, is_loop, is_continue, is_not, is_break,
  is_exception, is_except, is_finally, continue_loop,
}
use taipan.Vm.Unwind.Cut.{length-cut}
use taipan.Vm.Stack.{do_setup_loop, do_setup_except, do_setup_finally}

-- How much of the stack a block needs: a handler keeps the exception that it interrupted.
abbrev needs : TryBlock → ℕ
needs b = if is_handler b.type then b.level + 3 else b.level

-- Each block finds what it needs on the stack that the blocks inside leave.
abbrev pub Nested : ℕ → List TryBlock → Type 0
Nested n [] = Unit
Nested n (b ∷ bs) = (needs b ≤ n) × Nested b.level bs

abbrev pub IsNested : Vm → Type 0
IsNested vm = Nested (length vm.stack) vm.blocks

-- More values on the stack serve as well.
Nested-le : (m n : ℕ) (bs : List TryBlock) → m ≤ n → Nested m bs → Nested n bs
Nested-le m n [] h k = tt
Nested-le m n (b ∷ bs) h k = (omega arith, k.1)

-- A `continue` carries the place where to go on.
abbrev pub ContinueFits : Vm → Type 0
ContinueFits vm = vm.why ≡ why_continue → (d : ℤ) × (vm.retval ≡ int d)

-- A state, not a panic: control goes on in the frame, or the blocks are used up.
abbrev pub Settles : Option Vm → Type 0
Settles none = ⊥
Settles (some vm) = IsNested vm × ((vm.why ≡ why_not) ⊎ (vm.blocks ≡ []))

Settles-if :
    (b : Bool) (x y : Option Vm)
    → (b ≡ true → Settles x)
    → (b ≡ false → Settles y)
    → Settles (if b then x else y)
Settles-if true x y hx hy = hx refl
Settles-if false x y hx hy = hy refl

-- `vm'` has `n` values on its stack, and differs from `vm` neither in its blocks nor in its status.
abbrev AtLevel : ℕ → Vm → Vm → Type 0
AtLevel n vm vm' =
    (length vm'.stack ≡ n)
    × (vm'.blocks ≡ vm.blocks)
    × (vm'.why ≡ vm.why)
    × (vm'.retval ≡ vm.retval)

restore_level :
    (n : ℕ) (s : List Object) (vm : Vm)
    → length s ≡ n + 3
    → (vm' : Vm) × (restore_exc s vm ≡ some vm') × AtLevel n vm vm'
unfolding restore_exc
restore_level n [] vm h = absurd (omega arith)
restore_level n (t ∷ []) vm h = absurd (omega arith)
restore_level n (t ∷ v ∷ []) vm h = absurd (omega arith)
restore_level n (t ∷ v ∷ tb ∷ s) vm h = (
  record vm {
    stack = s;
    exc = record { type = as_type t; value = v; traceback = as_traceback tb };
  },
  refl,
  (omega arith, refl, refl, refl),
)

-- `UnwindExceptHandler` leaves the stack at the block's level.
handler_level :
    (b : TryBlock) (vm : Vm)
    → b.level + 3 ≤ length vm.stack
    → (vm' : Vm) × (unwind_except_handler b vm ≡ some vm') × AtLevel b.level vm vm'
unfolding unwind_except_handler
handler_level b vm h =
    let (vm', e, l) =
      restore_level b.level (cut (b.level + 3) vm.stack) vm (length-cut (b.level + 3) vm.stack h) in
    (vm', ground arith, l)

block_level :
    (b : TryBlock) (vm : Vm) → b.level ≤ length vm.stack → AtLevel b.level vm (unwind_block b vm)
unfolding unwind_block
block_level b vm h = ground (arith, length-cut b.level vm.stack h)

-- What the loop does behind a handler's block.
bind_Settles :
    (m : Option Vm) (f : Vm → Option Vm) (vm' : Vm)
    → m ≡ some vm'
    → Settles (f vm')
    → Settles (Option.bind m f)
unfolding Option.bind
bind_Settles none f vm' e h = cc
bind_Settles (some vm) f vm' e h = let e' : vm ≡ vm' = cc in rw e' h

module _ (b : TryBlock) (bs : List TryBlock) (vm : Vm) (n : Nested (length vm.stack) (b ∷ bs)) where
  abbrev popped : Vm
  popped = record vm { blocks = bs }

  level_fits : b.level ≤ length vm.stack
  level_fits = ground arith

  outside : AtLevel b.level popped (unwind_block b popped)
  outside = block_level b popped level_fits

  -- `go` is the rest of the loop, `f` what is known of it.
  out_of_handler :
      (go : Vm → Option Vm)
      → ((v : Vm) → AtLevel b.level popped v → Settles (go v))
      → is_handler b.type ≡ true
      → Settles (Option.bind (unwind_except_handler b popped) go)
  out_of_handler go f t =
      let (vm', e, l) = handler_level b popped (ground arith) in
      bind_Settles (unwind_except_handler b popped) go vm' e (f vm' l)

  to_handler : Settles (some (enter_handler b (unwind_block b popped)))
  to_handler = ground (arith, outside)

  to_finally : Settles (some (enter_finally b (unwind_block b popped)))
  to_finally =
      let v = unwind_block b popped in
      let fewer =
        Nested-le b.level (length (enter_finally b v).stack) bs (ground (arith, outside)) n.1 in
      (rw outside.1 fewer, inl refl)

  to_loop : Settles (some (record (unwind_block b popped) { why = why_not; lasti = b.handler }))
  to_loop = (rw (outside.1, outside.0) n.1, inl refl)

is_not_lem : (w : Why) → is_not w ≡ true → w ≡ why_not
is_not_lem w h = ground arith

continue_lem : (w : Why) (t : Bool) → (t && is_continue w) ≡ true → w ≡ why_continue
continue_lem w t h = ground arith

continue_Settles :
    (o : Object) (vm : Vm) → ((d : ℤ) × (o ≡ int d)) → IsNested vm → Settles (continue_loop o vm)
continue_Settles (int d) vm h n = (n, inl refl)
continue_Settles _ vm h n = cc (h.1)

unwind_loop-Settles :
    (bs : List TryBlock) (vm : Vm)
    → vm.blocks ≡ bs
    → Nested (length vm.stack) bs
    → ContinueFits vm
    → Settles (unwind_loop bs vm)
unfolding unwind_loop
unwind_loop-Settles [] vm e n c = ground arith
unwind_loop-Settles (b ∷ bs) vm e n c =
    let out = λ (v : Vm) (l : AtLevel b.level (record vm { blocks = bs }) v).
      unwind_loop-Settles bs v (l.1) (rw l.0 (n.1))
        (λ w. let (d, q) = c (sym l.2 ∙ w) in (d, l.3 ∙ q)) in
    Settles-if (is_not vm.why) _ _ (λ w. (rw e n, inl (is_not_lem vm.why w)))
      (λ _.
        Settles-if (is_loop b.type && is_continue vm.why) _ _
          (λ w. continue_Settles vm.retval vm (c (continue_lem vm.why (is_loop b.type) w)) (rw e n))
          (λ _. Settles-if (is_handler b.type) _ _ (out_of_handler b bs vm n _ out) (λ _.
            Settles-if (is_loop b.type && is_break vm.why) _ _ (λ _. to_loop b bs vm n)
              (λ _.
                Settles-if (is_exception vm.why && (is_except b.type || is_finally b.type)) _ _
                  (λ _. to_handler b bs vm n)
                  (λ _.
                    Settles-if (is_finally b.type) _ _ (λ _. to_finally b bs vm n)
                      (λ _. out _ (outside b bs vm n)))))))

-- On a well-nested block stack, and with an Int as the value to return where the reason to unwind is
-- a `continue`, unwinding does not panic: it ends with control back in the frame or with no block
-- left, and with a well-nested block stack again.
pub unwind-Settles : (vm : Vm) → IsNested vm → ContinueFits vm → Settles (unwind vm)
unfolding unwind
unwind-Settles vm n c = unwind_loop-Settles vm.blocks vm refl n c

-- What a `try`, `finally` or loop pushes keeps the block stack well nested.
pub setup-IsNested :
    (delta : ℤ) (vm : Vm)
    → IsNested vm
    → ((vm' : Vm) → do_setup_loop delta vm ≡ done vm' → IsNested vm')
      × ((vm' : Vm) → do_setup_except delta vm ≡ done vm' → IsNested vm')
      × ((vm' : Vm) → do_setup_finally delta vm ≡ done vm' → IsNested vm')
unfolding do_setup_loop do_setup_except do_setup_finally
setup-IsNested delta vm n = (λ v e. ground arith, λ v e. ground arith, λ v e. ground arith)
