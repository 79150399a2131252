-- ===== src/Range/Items.antt =====
-- py/range.go: the items of the iterator of a range, and those of indexing.
use taipan.Prelude.{
  ℕ, zero, suc, ◌+◌, ◌-◌, ◌*◌, ◌/◌, ◌≤◌, ◌<◌, ◌≡◌, refl, none, some, List, [], ◌∷◌, arith, ap, sym,
  ◌∙◌, leb, map, if◌then◌else◌,
}
use native.Mathlib.Decide.{dec_lt}
use taipan.Prelude.Int.{
  ℤ, pos, negsuc, add64, add64_pos, sub64_pos, wrap_pos, quot, wrap, ◌*ℤ◌, ◌+ℤ◌,
}
use taipan.Exceptions.{Result, ok, err, exception, index_error}
use taipan.Range.{
  Range, RangeIterator, range_new, next, iter, compute_item, compute_range_length, get_item,
  compute_negative_index,
}

-- The items that at most `fuel` calls of `M__next__` give, up to StopIteration.
unfoldable pub take_items : ℕ → RangeIterator → List ℤ
take_items zero it = []
take_items (suc fuel) it = elim (next it) [ none ↦ [] | some s ↦ s.0 ∷ take_items fuel s.1 ]

pub take_items-some :
    (fuel : ℕ) (it it' : RangeIterator) (v : ℤ)
    → next it ≡ some (v, it')
    → take_items (suc fuel) it ≡ v ∷ take_items fuel it'
unfolding take_items
take_items-some fuel it it' v e = rw (e, take_items)

take_items-none : (fuel : ℕ) (it : RangeIterator) → next it ≡ none → take_items (suc fuel) it ≡ []
unfolding take_items
take_items-none fuel it e = rw (e, take_items)

-- What `M__getitem__` returns at `n` indices from `i` on.
unfoldable pub indexed_items : Range → ℕ → ℕ → List (Result ℤ)
indexed_items r i zero = []
indexed_items r i (suc n) = get_item r (pos i) ∷ indexed_items r (suc i) n

-- The items at those indices, their bounds not tested.
computed_items : Range → ℕ → ℕ → List ℤ
computed_items r i zero = []
computed_items r i (suc n) = compute_item r (pos i) ∷ computed_items r (suc i) n

le_zero : (n : ℕ) → n ≤ 0 → n ≡ 0
le_zero n h = omega arith

-- The length of an ascending range.
abbrev pub up_count : ℕ → ℕ → ℕ → ℕ
up_count a b s = if leb b a then 0 else (b - a - 1) / s + 1

div_step : (d s : ℕ) → 0 < s → s ≤ d → d / s ≡ (d - s) / s + 1
div_step d s h k = grind arith

div_small : (d s : ℕ) → d < s → d / s ≡ 0
div_small d s h = grind arith

up_count_step : (a b s : ℕ) → 0 < s → a < b → up_count a b s ≡ suc (up_count (a + s) b s)
up_count_step a b s h k =
    let e : b - (a + s) - 1 ≡ b - a - 1 - s = omega arith in
    rw e (ground (arith, div_step (b - a - 1) s h, div_small (b - a - 1) s))

-- `n` items from `x` on, `s` apart.
steps : ℕ → ℕ → ℕ → List ℤ
steps x s zero = []
steps x s (suc n) = pos x ∷ steps (x + s) s n

module _ (r : Range) (b s : ℕ) (stop : r.stop ≡ pos b) (step : r.step ≡ pos s) (positive : 0 < s)
    (fits : b + s < 0x8000_0000_0000_0000) where
  abbrev at : ℕ → RangeIterator
  at x = record { range = r; index = pos x }

  next_within : (x : ℕ) → x < b → next (at x) ≡ some (pos x, at (x + s))
  unfolding next
  next_within x h = rw (stop, step) (ground (arith, add64_pos x s))

  next_done : (x : ℕ) → b ≤ x → next (at x) ≡ none
  unfolding next
  next_done x h = rw (stop, step) (ground arith)

  take_items_up :
      (fuel x : ℕ) → up_count x b s ≤ fuel → take_items fuel (at x) ≡ steps x s (up_count x b s)
  take_items_up zero x h = rw (le_zero _ h) (unfold take_items steps in refl)
  take_items_up (suc fuel) x h = elim (dec_lt x b) [
    | yes l ↦
        let e = up_count_step x b s positive l in
        take_items-some fuel (at x) (at (x + s)) (pos x) (next_within x l)
        ∙ ap (◌∷◌ (pos x)) (take_items_up fuel (x + s) (omega arith))
        ∙ sym (rw e (unfold steps in refl))
    | no l ↦
        let e : up_count x b s ≡ 0 = ground arith in
        take_items-none fuel (at x) (next_done x (omega arith)) ∙ sym (rw e (unfold steps in refl))
  ]

  compute_item_up :
      (a i : ℕ)
      → r.start ≡ pos a
      → a + i * s < 0x8000_0000_0000_0000
      → compute_item r (pos i) ≡ pos (a + i * s)
  unfolding compute_item ◌*ℤ◌
  compute_item_up a i e h = rw (step, e) (ground (arith, wrap_pos (i * s), add64_pos a (i * s)))

  computed_items_up :
      (a i n : ℕ)
      → r.start ≡ pos a
      → a + (i + n) * s ≤ b + s
      → computed_items r i n ≡ steps (a + i * s) s n
  unfolding computed_items steps
  computed_items_up a i zero e h = refl
  computed_items_up a i (suc n) e h =
      let k : suc i * s ≡ i * s + s = grind arith in
      let l : (i + suc n) * s ≡ i * s + n * s + s = grind arith in
      let m : (suc i + n) * s ≡ i * s + n * s + s = grind arith in
      let o : a + suc i * s ≡ a + i * s + s = omega arith in
      rw (compute_item_up a i e (omega arith))
        (ap (◌∷◌ (pos (a + i * s))) (computed_items_up a (suc i) n e (omega arith) ∙ rw o))

up_count_bound : (a b s : ℕ) → 0 < s → a < b → a + up_count a b s * s ≤ b + s
up_count_bound a b s h k = let e : (b - a - 1) / s * s ≤ b - a - 1 = grind arith in grind arith

compute_range_length_up :
    (a b s : ℕ)
    → 0 < s
    → b < 0x7fff_ffff_ffff_ffff
    → compute_range_length (pos a) (pos b) (pos s) ≡ some (pos (up_count a b s))
unfolding compute_range_length quot
compute_range_length_up a b s h k = elim (dec_lt a b) [
  | yes l ↦
      let d : (b - a - 1) / s ≤ b - a - 1 = grind arith in
      ground (
        arith,
        sub64_pos b a,
        sub64_pos (b - a) 1,
        wrap_pos ((b - a - 1) / s),
        add64_pos ((b - a - 1) / s) 1,
      )
  | no l ↦ ground arith
]

items_agree :
    (r : Range) (a b s : ℕ)
    → r.start ≡ pos a
    → r.stop ≡ pos b
    → r.step ≡ pos s
    → 0 < s
    → b + s < 0x8000_0000_0000_0000
    → (fuel : ℕ) → up_count a b s ≤ fuel
    → take_items fuel (iter r) ≡ computed_items r 0 (up_count a b s)
unfolding iter
items_agree r a b s start stop step h fits fuel enough =
    let up = take_items_up r b s stop step h fits fuel a enough in
    ap (λ (z : ℤ). take_items fuel (record { range = r; index = z })) start
    ∙ up
    ∙ elim (dec_lt a b) [
      | yes l ↦
          let z : a + 0 * s ≡ a = grind arith in
          let w : (0 + up_count a b s) * s ≡ up_count a b s * s = grind arith in
          sym (
            computed_items_up r b s stop step h fits a 0 (up_count a b s) start
              (omega (arith, up_count_bound a b s h l))
            ∙ rw z)
      | no l ↦
          let e : up_count a b s ≡ 0 = ground arith in rw e (unfold steps computed_items in refl)
    ]

get_item_within :
    (r : Range) (i n : ℕ)
    → r.length ≡ pos n
    → i < n
    → get_item r (pos i) ≡ ok (compute_item r (pos i))
unfolding get_item compute_negative_index
get_item_within r i n e h = rw e (ground arith)

get_item_behind :
    (r : Range) (i n : ℕ)
    → r.length ≡ pos n
    → n ≤ i
    → get_item r (pos i) ≡ err (exception index_error "range object index out of range")
unfolding get_item compute_negative_index
get_item_behind r i n e h = rw e (ground arith)

indexed-computed :
    (r : Range) (i k n : ℕ)
    → r.length ≡ pos n
    → i + k ≤ n
    → indexed_items r i k ≡ map ok (computed_items r i k)
unfolding indexed_items computed_items
indexed-computed r i zero n e h = refl
indexed-computed r i (suc k) n e h =
    ap (λ (x : Result ℤ). x ∷ indexed_items r (suc i) k) (get_item_within r i n e (omega arith))
    ∙ ap (◌∷◌ (ok (compute_item r (pos i)))) (indexed-computed r (suc i) k n e (omega arith))

-- An ascending range over natural numbers, with a stop and a step whose sum fits 63 bits: its
-- length is the number of steps that stay below the stop; iterating it to StopIteration, with at
-- least that many calls of `M__next__`, gives exactly the items that `M__getitem__` returns at the
-- indices from 0 to below the length, in order; and from the length on every index is refused.
pub take_items-range_new :
    (a b s fuel i : ℕ) {r : Range}
    → 0 < s
    → b + s < 0x8000_0000_0000_0000
    → range_new (pos a) (pos b) (pos s) ≡ some r
    → up_count a b s ≤ fuel
    → up_count a b s ≤ i
    → (r.length ≡ pos (up_count a b s))
      × (map ok (take_items fuel (iter r)) ≡ indexed_items r 0 (up_count a b s))
      × (get_item r (pos i) ≡ err (exception index_error "range object index out of range"))
unfolding range_new
take_items-range_new a b s fuel i {r} h fits e enough beyond =
    let l = compute_range_length_up a b s h (omega arith) in
    let n = up_count a b s in
    let long : r.length ≡ pos n = ground (arith, l) in
    let items =
      items_agree r a b s (ground (arith, l)) (ground (arith, l)) (ground (arith, l)) h fits fuel
        enough in
    (
      long,
      ap (map ok) items ∙ sym (indexed-computed r 0 n n long (omega arith)),
      get_item_behind r i n long beyond,
    )

-- Where the sum of an index below the stop and the step passes 2^63, the iterator wraps around:
-- it gives that index and goes on from a negative one, which it gives next.
pub next_overflows :
    (r : Range) (x b s : ℕ)
    → r.stop ≡ pos b
    → r.step ≡ pos s
    → x < b
    → b < 0x8000_0000_0000_0000
    → s < 0x8000_0000_0000_0000
    → 0x8000_0000_0000_0000 ≤ x + s
    → (m : ℕ) × (next (record { range = r; index = pos x })
        ≡ some (pos x, record { range = r; index = negsuc m }))
      × ((it : RangeIterator) × (next (record { range = r; index = negsuc m })
            ≡ some (negsuc m, it)))
unfolding next wrap ◌+ℤ◌
next_overflows r x b s stop step h fb fs over = (
  0xffff_ffff_ffff_ffff - (x + s),
  rw (stop, step) (ground arith),
  (
    record { range = r; index = add64 (negsuc (0xffff_ffff_ffff_ffff - (x + s))) r.step },
    rw (stop, step) (ground arith),
  ),
)
