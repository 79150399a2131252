-- ===== src/Range.antt =====
-- py/range.go: ranges over 64-bit integers, their iterator, and slices of them. The arguments have
-- been through `py.Index`.
pub mod Items
pub mod Compare
pub mod Faults
mod Tests
use mathlib.Core.Option
use taipan.Prelude.{
  not, Bool, true, false, ◌&&◌, ◌||◌, Option, none, some, List, [], ◌∷◌, if◌then◌else◌, ◌≡◌, refl,
}
use taipan.Prelude.Int.{
  ℤ, pos, negsuc, wrap, add64, sub64, mul64, quot, ltb_ℤ, leb_ℤ, eqb_ℤ, ◌+ℤ◌, ◌-ℤ◌, ◌*ℤ◌,
}
use taipan.Exceptions.{Result, ok, err, ◌>>=◌, exception, value_error, index_error}
use taipan.Slice.{Slice, Bound, none_bound, object}

pub record Range : Type 0 where
  pub start : ℤ
  pub stop : ℤ
  pub step : ℤ
  pub length : ℤ

pub record RangeIterator : Type 0 where
  pub range : Range
  pub index : ℤ

-- Go's division, which panics on 0: `none` is the panic.
divide : ℤ → ℤ → Option ℤ
divide a b = if eqb_ℤ b (pos 0) then none else some (wrap (quot a b))

unfoldable pub compute_range_length : ℤ → ℤ → ℤ → Option ℤ
unfolding divide
compute_range_length start stop step =
    let up = ltb_ℤ (pos 0) step in
    let lo = if up then start else stop in
    let hi = if up then stop else start in
    let step' = if up then step else sub64 (pos 0) step in
    if leb_ℤ hi lo
    then some (pos 0)
    else Option.map (λ q. add64 q (pos 1)) (divide (sub64 (sub64 hi lo) (pos 1)) step')

abbrev with_length : ℤ → ℤ → ℤ → ℤ → Range
with_length start stop step n = record { start = start; stop = stop; step = step; length = n }

-- `RangeNew` with one argument, and with two or three.
unfoldable pub range_stop : ℤ → Option Range
unfolding compute_range_length
range_stop stop =
    Option.map (with_length (pos 0) stop (pos 1)) (compute_range_length (pos 0) stop (pos 1))

unfoldable pub range_new : ℤ → ℤ → ℤ → Option Range
unfolding compute_range_length
range_new start stop step =
    Option.map (with_length start stop step) (compute_range_length start stop step)

unfoldable pub compute_item : Range → ℤ → ℤ
compute_item r item = add64 r.start (mul64 item r.step)

unfoldable pub compute_negative_index : ℤ → ℤ → ℤ
compute_negative_index index length = if ltb_ℤ index (pos 0) then add64 index length else index

unfoldable pub compute_bound_index : ℤ → ℤ → ℤ
compute_bound_index index length =
    if ltb_ℤ index (pos 0) then pos 0 else if ltb_ℤ length index then length else index

-- `M__getitem__` at an index.
unfoldable pub get_item : Range → ℤ → Result ℤ
unfolding compute_negative_index compute_item
get_item r key =
    let index = compute_negative_index key r.length in
    if ltb_ℤ index (pos 0) || leb_ℤ r.length index
    then err (exception index_error "range object index out of range")
    else ok (compute_item r index)

-- `M__iter__`
unfoldable pub iter : Range → RangeIterator
iter r = record { range = r; index = r.start }

-- `M__next__`: the value and the iterator after it, or `none` for StopIteration.
unfoldable pub next : RangeIterator → Option (ℤ × RangeIterator)
next it =
    if leb_ℤ (pos 0) it.range.step && leb_ℤ it.range.stop it.index
    then none
    else if ltb_ℤ it.range.step (pos 0) && leb_ℤ it.index it.range.stop
    then none
    else some (it.index, record it { index = add64 it.index it.range.step })

unfoldable pub get_index_with_default : Bound → ℤ → Result ℤ
get_index_with_default none_bound d = ok d
get_index_with_default (object answer) d = answer

-- `none` inside `ok` is the panic of a division by 0.
unfoldable pub compute_range_slice : Range → Slice → Result (Option Range)
unfolding get_index_with_default compute_negative_index compute_bound_index compute_item
    compute_range_length
compute_range_slice r s = do
  start₀ ← get_index_with_default s.start (pos 0)
  stop₀ ← get_index_with_default s.stop r.length
  step ← get_index_with_default s.step (pos 1)
  let start = compute_bound_index (compute_negative_index start₀ r.length) r.length
  let stop = compute_bound_index (compute_negative_index stop₀ r.length) r.length
  let first = compute_item r start
  let last = compute_item r stop
  let step_index = mul64 step r.step
  let back = ltb_ℤ step_index (pos 0)
  let start_index =
      if back then (if ltb_ℤ start stop then sub64 last (pos 1) else add64 last (pos 1)) else first
  let stop_index =
      if back then (if ltb_ℤ start stop then sub64 first (pos 1) else add64 first (pos 1)) else last
  if eqb_ℤ step (pos 0)
      then err (exception value_error "slice step cannot be zero")
      else ok (range_new start_index stop_index step_index)

-- `M__eq__` and `M__ne__` of two ranges.
unfoldable pub range_eq : Range → Range → Bool
range_eq a b =
    if not (eqb_ℤ a.length b.length)
    then false
    else if eqb_ℤ a.length (pos 0)
    then true
    else if not (eqb_ℤ a.start b.start)
    then false
    else if eqb_ℤ a.step (pos 1)
    then true
    else eqb_ℤ a.step b.step

unfoldable pub range_ne : Range → Range → Bool
range_ne a b =
    if not (eqb_ℤ a.length b.length)
    then true
    else if eqb_ℤ a.length (pos 0)
    then false
    else if not (eqb_ℤ a.start b.start)
    then true
    else if eqb_ℤ a.step (pos 1)
    then false
    else not (eqb_ℤ a.step b.step)
