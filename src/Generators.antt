-- ===== src/Generators.antt =====
-- py/generator.go: the state machine of a generator. The machine that runs its frame is a
-- parameter, vm/eval.go's RunFrame: a function of the frame, of which `rest` is what Send does not
-- look at.
mod Tests
use taipan.Prelude.{
  ℕ, zero, suc, ◌+◌, ◌==◌, ==_iff, Bool, true, false, not, ◌≡◌, ◌≢◌, ◌⊎◌, inl, inr, refl, ap, ◌∙◌,
  arith, List, [], ◌∷◌, ◌++◌, map, replicate, length, if◌then◌else◌, Bool-cases,
}
use taipan.Exceptions.{
  Result, ok, err, Exception, exception, value_error, type_error, stop_iteration,
}

pub data Value : Type 0 where
  none_object : Value
  object : ℕ → Value

abbrev pub is_none : Value → Bool
is_none none_object = true
is_none (object n) = false

abbrev pub stopped : Exception
stopped = exception stop_iteration ""

abbrev pub already_executing : Exception
already_executing = exception value_error "generator already executing"

abbrev pub just_started : Exception
just_started = exception type_error "can't send non-None value to a just-started generator"

-- What Send returns, by the result of the frame and its flag.
abbrev pub sent : Result Value → Bool → Result Value
sent (err e) yielded = err e
sent (ok v) true = ok v
sent (ok v) false = err stopped

module _ (S : Type 0) where
  pub record Frame : Type 0 where
    pub lasti : ℕ
    pub yielded : Bool
    pub stack : List Value
    pub rest : S

  pub record Generator : Type 0 where
    pub frame : Frame
    pub running : Bool

module _ {S : Type 0} where
  abbrev pub push_arg : Value → Frame S → Frame S
  push_arg v f = record f { stack = v ∷ f.stack }

  abbrev pub generator : Frame S → Generator S
  generator f = record { frame = f; running = false }

module _ {S : Type 0} (run_frame : Frame S → Result Value × Frame S) where
  abbrev pub resume : Frame S → Result Value × Generator S
  resume f = (sent ((run_frame f).0) ((run_frame f).1).yielded, generator ((run_frame f).1))

  unfoldable pub send : Value → Generator S → Result Value × Generator S
  send arg it =
      if it.running
      then (err already_executing, it)
      else if it.frame.lasti == 0
      then (if is_none arg then resume it.frame else (err just_started, it))
      else if not it.frame.yielded
      then (err stopped, it)
      else resume (push_arg arg it.frame)

  -- `M__next__`
  unfoldable pub next : Generator S → Result Value × Generator S
  unfolding send
  next it = send none_object it

  -- It has run, and did not yield last.
  abbrev pub IsFinished : Generator S → Type 0
  IsFinished it = (it.running ≡ false) × (it.frame.lasti ≢ 0) × (it.frame.yielded ≡ false)

  nonzero : (n : ℕ) → n ≢ 0 → (n == 0) ≡ false
  nonzero n h = ground arith

  send-IsFinished :
      (arg : Value) (it : Generator S) → IsFinished it → send arg it ≡ (err stopped, it)
  unfolding send
  send-IsFinished arg it (h, k, l) = rw (h, nonzero it.frame.lasti k, l) refl

  -- A generator that is running answers any value with an error, and one that has not begun any value
  -- but None, both without a change.
  pub send_refused :
      (arg : Value) (it : Generator S)
      → (it.running ≡ true) ⊎ ((it.running ≡ false) × (it.frame.lasti ≡ 0) × (is_none arg ≡ false))
      → (e : Exception) × (send arg it ≡ (err e, it))
  unfolding send
  send_refused arg it (inl h) = (already_executing, rw h refl)
  send_refused arg it (inr (h, k, n)) = (just_started, rw (h, k, n) refl)
