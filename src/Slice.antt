-- ===== src/Slice.antt =====
-- py/slice.go: `GetIndices`. A bound is Python's None or an object, which is kept as what `py.Index`
-- answers for it; `int` has 64 bits.
pub mod Bounds
mod Tests
use taipan.Prelude.{ℕ, Bool, true, false, ◌&&◌, ◌||◌, if◌then◌else◌, ◌≡◌, refl}
use taipan.Prelude.Int.{
  ℤ, pos, negsuc, wrap, add64, sub64, quot, ltb_ℤ, leb_ℤ, eqb_ℤ, max_int, of_word, ◌+ℤ◌, ◌-ℤ◌,
}
use taipan.Exceptions.{Result, ok, err, ◌>>=◌, exception, value_error, index_error}

pub data Bound : Type 0 where
  none_bound : Bound
  object : Result ℤ → Bound

pub record Slice : Type 0 where
  pub start : Bound
  pub stop : Bound
  pub step : Bound

-- `IndexInt` of py/internal.go.
unfoldable pub index_int : Result ℤ → Result ℤ
index_int answer = do
  i ← answer
  if eqb_ℤ (wrap i) i
      then ok (wrap i)
      else err (exception index_error "cannot fit %d into an index-sized integer")

pub record Indices : Type 0 where
  pub start : ℤ
  pub stop : ℤ
  pub step : ℤ
  pub slicelength : ℤ

-- -PY_SSIZE_T_MAX
abbrev pub least_step : ℤ
least_step = negsuc 0x7fff_ffff_ffff_fffe

unfoldable pub slice_step : Bound → Result ℤ
unfolding index_int
slice_step none_bound = ok (pos 1)
slice_step (object answer) = do
  step ← index_int answer
  if eqb_ℤ step (pos 0)
      then err (exception value_error "slice step cannot be zero")
      else ok (if ltb_ℤ step least_step then least_step else step)

-- The part of `GetIndices` that `Start` and `Stop` share: `v` is clipped to the length.
unfoldable pub clip : ℤ → ℤ → ℤ → ℤ
clip length step v =
    let v' = if ltb_ℤ v (pos 0) then add64 v length else v in
    let v'' = if ltb_ℤ v' (pos 0) then (if ltb_ℤ step (pos 0) then negsuc 0 else pos 0) else v' in
    if leb_ℤ length v'' then (if ltb_ℤ step (pos 0) then sub64 length (pos 1) else length) else v''

unfoldable pub slice_bound : ℤ → ℤ → ℤ → Bound → Result ℤ
unfolding index_int clip
slice_bound length step default none_bound = ok default
slice_bound length step default (object answer) = do v ← index_int answer; ok (clip length step v)

unfoldable pub slice_length : ℤ → ℤ → ℤ → ℤ
slice_length start stop step =
    if ltb_ℤ step (pos 0) && leb_ℤ start stop || ltb_ℤ (pos 0) step && leb_ℤ stop start
    then pos 0
    else if ltb_ℤ step (pos 0)
    then add64 (wrap (quot (add64 (sub64 stop start) (pos 1)) step)) (pos 1)
    else add64 (wrap (quot (sub64 (sub64 stop start) (pos 1)) step)) (pos 1)

unfoldable pub get_indices : Slice → ℤ → Result Indices
unfolding slice_step slice_bound slice_length
get_indices r length = do
  step ← slice_step r.step
  let defstart = if ltb_ℤ step (pos 0) then sub64 length (pos 1) else pos 0
  let defstop = if ltb_ℤ step (pos 0) then negsuc 0 else length
  start ← slice_bound length step defstart r.start
  stop ← slice_bound length step defstop r.stop
  ok (record {
    start = start;
    stop = stop;
    step = step;
    slicelength = slice_length start stop step;
  })
