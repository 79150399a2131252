-- ===== src/Slice/Bounds.antt =====
-- py/slice.go: the indices of a slice, and the sequence.
use taipan.Prelude.{
  ℕ, zero, suc, ap, refl, subst, if◌then◌else◌, ◌∙◌, ◌+◌, ◌-◌, ◌*◌, ◌/◌, ◌≤◌, ◌<◌, ◌≡◌, ◌≢◌, arith,
}
use taipan.Prelude.Int.{
  ltb_ℤ, max_int, ◌*ℤ◌, ℤ, pos, negsuc, sub64, sub64_pos, wrap_pos, add64_pos, sub64_neg, neg_ℕ,
  wrap-neg_ℕ, wrap, wrap-InRange, +ℤ_parts, -ℤ_parts, add64, InRange, quot, ◌+ℤ◌, ◌-ℤ◌, ◌≤ℤ◌, ◌<ℤ◌,
}
use taipan.Exceptions.{ok, err, >>=-eq-ok, ok_injective}
use native.Mathlib.Decide.{dec_lt}
use taipan.Slice.{
  index_int, least_step, Slice, Bound, none_bound, object, Indices, get_indices, clip, slice_length,
  slice_bound, slice_step,
}

-- What `GetIndices` promises of a start or a stop, by the direction of the step.
abbrev pub Clipped : ℕ → ℤ → ℤ → Type 0
Clipped n (pos s) v = (pos 0 ≤ℤ v) × (v ≤ℤ pos n)
Clipped n (negsuc s) v = (negsuc 0 ≤ℤ v) × (v <ℤ pos n)

-- Sums that fit are not wrapped.
add64_exact : (a b : ℤ) → InRange (a +ℤ b) → add64 a b ≡ a +ℤ b
add64_exact a b h = wrap-InRange (a +ℤ b) h

clip-Clipped :
    (n : ℕ) (step v : ℤ)
    → n < 0x7fff_ffff_ffff_ffff
    → InRange v
    → Clipped n step (clip (pos n) step v)
unfolding clip
clip-Clipped n (pos s) (pos v) h r = ground arith
clip-Clipped n (pos s) (negsuc v) h r =
    ground (arith, wrap-InRange (negsuc v +ℤ pos n), +ℤ_parts (negsuc v) (pos n))
clip-Clipped n (negsuc s) (pos v) h r =
    ground (arith, wrap-InRange (pos n -ℤ pos 1), -ℤ_parts (pos n) (pos 1))
clip-Clipped n (negsuc s) (negsuc v) h r = ground (
  arith,
  wrap-InRange (negsuc v +ℤ pos n),
  +ℤ_parts (negsuc v) (pos n),
  wrap-InRange (pos n -ℤ pos 1),
  -ℤ_parts (pos n) (pos 1),
)

-- What an object answers is an `Int` of 64 bits.
abbrev pub BoundFits : Bound → Type 0
BoundFits (object (ok v)) = InRange v
BoundFits _ = Unit

slice_bound-Clipped :
    (n : ℕ) (step default : ℤ) (b : Bound) {v : ℤ}
    → n < 0x7fff_ffff_ffff_ffff
    → BoundFits b
    → Clipped n step default
    → slice_bound (pos n) step default b ≡ ok v
    → Clipped n step v
unfolding slice_bound index_int
slice_bound-Clipped n step default none_bound h f d e = ground arith
slice_bound-Clipped n step default (object (err x)) h f d e = cc
slice_bound-Clipped n step default (object (ok w)) h f d e =
    ground (arith, wrap-InRange w f, clip-Clipped n step w h f)

-- A step is not 0, and its negation fits.
abbrev pub StepFits : ℤ → Type 0
StepFits st = (st ≢ pos 0) × (least_step ≤ℤ st) × (st ≤ℤ max_int)

slice_step-StepFits : (b : Bound) {st : ℤ} → BoundFits b → slice_step b ≡ ok st → StepFits st
unfolding slice_step index_int
slice_step-StepFits none_bound f e = ground arith
slice_step-StepFits (object (err x)) f e = cc
slice_step-StepFits (object (ok w)) f e = ground (arith, wrap-InRange w f)

-- The `i`th index of a slice.
unfoldable pub slice_index : Indices → ℕ → ℤ
unfolding ◌+ℤ◌ ◌*ℤ◌
slice_index ix i = ix.start +ℤ pos i *ℤ ix.step

slice_length_up :
    (a b s : ℕ)
    → a < b
    → b < 0x7fff_ffff_ffff_ffff
    → 0 < s
    → slice_length (pos a) (pos b) (pos s) ≡ pos ((b - a - 1) / s + 1)
unfolding slice_length quot
slice_length_up a b s h k p =
    let e : (b - a - 1) / s ≤ b - a - 1 = grind arith in
    ground (
      arith,
      sub64_pos b a,
      sub64_pos (b - a) 1,
      wrap_pos ((b - a - 1) / s),
      add64_pos ((b - a - 1) / s) 1,
    )

index_up : (a b s i : ℕ) → a < b → 0 < s → i < (b - a - 1) / s + 1 → a + i * s < b
index_up a b s i h p k = grind arith

quot_neg : (x s : ℕ) → quot (neg_ℕ x) (negsuc s) ≡ pos (x / suc s)
unfolding quot
quot_neg zero s = ground arith
quot_neg (suc x) s = ground arith

wrap_add_one_neg : (x : ℕ) → x < 0x7fff_ffff_ffff_ffff → add64 (neg_ℕ (suc x)) (pos 1) ≡ neg_ℕ x
unfolding ◌+ℤ◌
wrap_add_one_neg x h = ground (arith, wrap-neg_ℕ x)

slice_length_down :
    (a b s : ℕ)
    → b < a
    → a < 0x7fff_ffff_ffff_ffff
    → slice_length (pos a) (pos b) (negsuc s) ≡ pos ((a - b - 1) / suc s + 1)
unfolding slice_length
slice_length_down a b s h k =
    let x = a - b - 1 in
    let e : x / suc s ≤ x = grind arith in
    let r : sub64 (pos b) (pos a) ≡ neg_ℕ (suc x) =
      sub64_neg b a (omega arith) (omega arith) ∙ ap neg_ℕ (omega arith) in
    rw (r, wrap_add_one_neg x (omega arith), quot_neg x s)
      (ground (arith, wrap_pos (x / suc s), add64_pos (x / suc s) 1))

minus_one : (a : ℕ) → a < 0x7fff_ffff_ffff_ffff → sub64 (negsuc 0) (pos a) ≡ neg_ℕ (suc a)
unfolding ◌-ℤ◌
minus_one a h = ground (arith, wrap-neg_ℕ (suc a))

slice_length_end :
    (a s : ℕ)
    → a < 0x7fff_ffff_ffff_ffff
    → slice_length (pos a) (negsuc 0) (negsuc s) ≡ pos (a / suc s + 1)
unfolding slice_length
slice_length_end a s k =
    let e : a / suc s ≤ a = grind arith in
    rw (minus_one a k, wrap_add_one_neg a k, quot_neg a s)
      (ground (arith, wrap_pos (a / suc s), add64_pos (a / suc s) 1))

index_down : (a c s i : ℕ) → c ≤ a → i < (a - c) / suc s + 1 → i * suc s + c ≤ a
index_down a c s i h k = grind arith

-- The elements of a slice are in range.
abbrev pub Inside : ℕ → ℤ → Type 0
Inside n v = (pos 0 ≤ℤ v) × (v <ℤ pos n)

-- All positions of a slice are inside a sequence of `n`, and there are at most `n`.
abbrev pub IsCovered : ℕ → Indices → Type 0
IsCovered n ix =
    ((i : ℕ) → pos i <ℤ ix.slicelength → Inside n (slice_index ix i))
    × (pos 0 ≤ℤ ix.slicelength)
    × (ix.slicelength ≤ℤ pos n)

abbrev indices : ℤ → ℤ → ℤ → Indices
indices a b s = record { start = a; stop = b; step = s; slicelength = slice_length a b s }

empty-IsCovered : (n : ℕ) (ix : Indices) → ix.slicelength ≡ pos 0 → IsCovered n ix
empty-IsCovered n ix e = (λ i h. absurd (ground arith), ground arith, ground arith)

up-IsCovered :
    (n a b s : ℕ)
    → n < 0x7fff_ffff_ffff_ffff
    → b ≤ n
    → a < b
    → 0 < s
    → IsCovered n (indices (pos a) (pos b) (pos s))
unfolding slice_index
up-IsCovered n a b s h k l p =
    let e = slice_length_up a b s l (omega arith) p in
    let d : (b - a - 1) / s ≤ b - a - 1 = grind arith in
    (λ i j. ground (arith, e, index_up a b s i l p), ground (arith, e), ground (arith, e))

down-IsCovered :
    (n a b s : ℕ)
    → n < 0x7fff_ffff_ffff_ffff
    → a < n
    → b < a
    → IsCovered n (indices (pos a) (pos b) (negsuc s))
unfolding slice_index
down-IsCovered n a b s h k l =
    let e = slice_length_down a b s l (omega arith) in
    let d : (a - b - 1) / suc s ≤ a - b - 1 = grind arith in
    let f = λ (i : ℕ) (j : i < (a - b - 1) / suc s + 1).
      index_down a (b + 1) s i (omega arith) (ground arith) in
    (λ i j. ground (arith, e, f i), ground (arith, e), ground (arith, e))

end-IsCovered :
    (n a s : ℕ)
    → n < 0x7fff_ffff_ffff_ffff
    → a < n
    → IsCovered n (indices (pos a) (negsuc 0) (negsuc s))
unfolding slice_index
end-IsCovered n a s h k =
    let e = slice_length_end a s (omega arith) in
    let d : a / suc s ≤ a = grind arith in
    let f = λ (i : ℕ) (j : i < a / suc s + 1). index_down a 0 s i (omega arith) (ground arith) in
    (λ i j. ground (arith, e, f i), ground (arith, e), ground (arith, e))

none_up : (a b : ℤ) (s : ℕ) → b ≤ℤ a → 0 < s → slice_length a b (pos s) ≡ pos 0
unfolding slice_length
none_up a b s h p = ground arith

none_down : (a b : ℤ) (s : ℕ) → a ≤ℤ b → slice_length a b (negsuc s) ≡ pos 0
unfolding slice_length
none_down a b s h = ground arith

step_pos : (s : ℕ) → pos s ≢ pos 0 → 0 < s
step_pos s h = ground arith

indices-IsCovered :
    (n : ℕ) (a b s : ℤ)
    → n < 0x7fff_ffff_ffff_ffff
    → StepFits s
    → Clipped n s a
    → Clipped n s b
    → IsCovered n (indices a b s)
indices-IsCovered n (negsuc a) b (pos s) h f ca cb = absurd (omega arith)
indices-IsCovered n (pos a) (negsuc b) (pos s) h f ca cb = absurd (omega arith)
indices-IsCovered n (pos a) (pos b) (pos s) h f ca cb = elim (dec_lt a b) [
  | yes l ↦ up-IsCovered n a b s h (omega arith) l (step_pos s f.0)
  | no l ↦ empty-IsCovered n _ (none_up (pos a) (pos b) s (omega arith) (step_pos s f.0))
]
indices-IsCovered n (negsuc a) b (negsuc s) h f ca cb =
    empty-IsCovered n _ (none_down (negsuc a) b s (omega arith))
indices-IsCovered n (pos a) (negsuc zero) (negsuc s) h f ca cb = end-IsCovered n a s h (omega arith)
indices-IsCovered n (pos a) (negsuc (suc b)) (negsuc s) h f ca cb = absurd (omega arith)
indices-IsCovered n (pos a) (pos b) (negsuc s) h f ca cb = elim (dec_lt b a) [
  | yes l ↦ down-IsCovered n a b s h (omega arith) l
  | no l ↦ empty-IsCovered n _ (none_down (pos a) (pos b) s (omega arith))
]

-- The defaults of a missing start and stop.
default_start :
    (n : ℕ) (s : ℤ)
    → n < 0x7fff_ffff_ffff_ffff
    → Clipped n s (if ltb_ℤ s (pos 0) then sub64 (pos n) (pos 1) else pos 0)
default_start n (pos s) h = ground arith
default_start n (negsuc s) h =
    ground (arith, wrap-InRange (pos n -ℤ pos 1), -ℤ_parts (pos n) (pos 1))

default_stop : (n : ℕ) (s : ℤ) → Clipped n s (if ltb_ℤ s (pos 0) then negsuc 0 else pos n)
default_stop n (pos s) = ground arith
default_stop n (negsuc s) = ground arith

-- When `GetIndices` succeeds on a sequence of `n` elements, with bounds that fit 64 bits, the slice
-- has between 0 and `n` positions, and each position is the index of an element.
pub get_indices-IsCovered :
    (r : Slice) (n : ℕ) {ix : Indices}
    → n < 0x7fff_ffff_ffff_ffff
    → BoundFits r.start
    → BoundFits r.stop
    → BoundFits r.step
    → get_indices r (pos n) ≡ ok ix
    → IsCovered n ix
unfolding get_indices
get_indices-IsCovered r n h fa fb fs e =
    let (s, es, e₁) = >>=-eq-ok (slice_step r.step) _ e in
    let (a, ea, e₂) = >>=-eq-ok (slice_bound (pos n) s _ r.start) _ e₁ in
    let (b, eb, e₃) = >>=-eq-ok (slice_bound (pos n) s _ r.stop) _ e₂ in
    subst (IsCovered n) (ok_injective e₃) (
      indices-IsCovered n a b s h (slice_step-StepFits r.step fs es)
        (slice_bound-Clipped n s _ r.start h fa (default_start n s h) ea)
        (slice_bound-Clipped n s _ r.stop h fb (default_stop n s) eb))

-- A bound that is None or answers a value.
abbrev pub Answers : Bound → Type 0
Answers none_bound = Unit
Answers (object answer) = (v : ℤ) × (answer ≡ ok v) × InRange v

-- A step that is None or answers a value other than 0.
abbrev pub StepAnswers : Bound → Type 0
StepAnswers none_bound = Unit
StepAnswers (object answer) = (v : ℤ) × (answer ≡ ok v) × InRange v × (v ≢ pos 0)

slice_bound_total :
    (n step default : ℤ) (b : Bound) → Answers b → (v : ℤ) × (slice_bound n step default b ≡ ok v)
unfolding slice_bound index_int
slice_bound_total n step default none_bound h = (default, refl)
slice_bound_total n step default (object answer) (v, e, f) =
    (clip n step (wrap v), ground (arith, wrap-InRange v f))

slice_step_total : (b : Bound) → StepAnswers b → (s : ℤ) × (slice_step b ≡ ok s)
unfolding slice_step index_int
slice_step_total none_bound h = (pos 1, refl)
slice_step_total (object answer) (v, e, f, ne) =
    (if ltb_ℤ v least_step then least_step else v, ground (arith, wrap-InRange v f))

-- `GetIndices` succeeds whenever the bounds are None or answer 64-bit values and the step, if
-- there is one, is not 0.
pub get_indices_total :
    (r : Slice) (n : ℤ)
    → Answers r.start
    → Answers r.stop
    → StepAnswers r.step
    → (ix : Indices) × (get_indices r n ≡ ok ix)
unfolding get_indices
get_indices_total r n fa fb fs =
    let (s, es) = slice_step_total r.step fs in
    let (a, ea) =
      slice_bound_total n s (if ltb_ℤ s (pos 0) then sub64 n (pos 1) else pos 0) r.start fa in
    let (b, eb) = slice_bound_total n s (if ltb_ℤ s (pos 0) then negsuc 0 else n) r.stop fb in
    (indices a b s, rw (es, ea, eb))
