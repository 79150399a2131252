-- ===== src/Execution/Trace.antt =====
-- py/execution.go: what holds of the call depth and of the output count after any sequence of
-- calls of the state's methods.
use taipan.Prelude.{ℕ, ◌<◌, ◌≡◌, true, Option, none, some, arith, List, [], ◌∷◌}
use taipan.Prelude.Int.{ℤ, pos, wrap, ◌+ℤ◌, ◌-ℤ◌, ◌≤ℤ◌, ◌<ℤ◌}
use taipan.Execution.{
  ExecutionLimits, ExecutionState, exception_from_context_error, HostError, enter_call, exit_call,
  restore_call_depth, reserve_output, check_context, before_opcode, context_error,
}

-- The calls that change the depth or the output count, with what the host's context answers.
pub data Event : Type 0 where
  opcode : Option HostError → Event
  enter : Option HostError → Event
  exit : Event
  restore : ℕ → Event
  write : Option HostError → ℕ → Event

pub apply_event : Event → ExecutionState → ExecutionState
apply_event (opcode a) s = (before_opcode a s).0
apply_event (enter a) s = (enter_call a s).0
apply_event exit s = exit_call s
apply_event (restore n) s = restore_call_depth (pos n) s
apply_event (write a n) s = (reserve_output a (pos n) s).0

unfoldable pub apply_events : List Event → ExecutionState → ExecutionState
unfolding apply_event
apply_events [] s = s
apply_events (e ∷ es) s = apply_events es (apply_event e s)

-- Normalised limits: positive, and below 2^62.
pub record LimitsFit (l : ExecutionLimits) : Type 0 where
  pub depth_pos : pos 0 <ℤ l.max_call_depth
  pub depth_small : l.max_call_depth <ℤ pos 0x4000_0000_0000_0000
  pub output_pos : pos 0 <ℤ l.max_output_bytes
  pub output_small : l.max_output_bytes <ℤ pos 0x4000_0000_0000_0000

-- Depth and output lie between 0 and the limits `l`, which stay in force.
pub record IsBounded (l : ExecutionLimits) (s : ExecutionState) : Type 0 where
  pub same_depth_limit : s.limits.max_call_depth ≡ l.max_call_depth
  pub same_output_limit : s.limits.max_output_bytes ≡ l.max_output_bytes
  pub depth_nonneg : pos 0 ≤ℤ s.call_depth
  pub depth_le : s.call_depth ≤ℤ l.max_call_depth
  pub output_nonneg : pos 0 ≤ℤ s.output_bytes
  pub output_le : s.output_bytes ≤ℤ l.max_output_bytes

-- A resume restores a depth within the limit; no write is as long as 2^62 bytes.
abbrev pub EventFits : ExecutionLimits → Event → Type 0
EventFits l (restore n) = pos n ≤ℤ l.max_call_depth
EventFits l (write a n) = n < 0x4000_0000_0000_0000
EventFits l _ = Unit

abbrev pub EventsFit : ExecutionLimits → List Event → Type 0
EventsFit l [] = Unit
EventsFit l (e ∷ es) = EventFits l e × EventsFit l es

apply_event-IsBounded :
    (l : ExecutionLimits) (e : Event) (s : ExecutionState)
    → LimitsFit l
    → EventFits l e
    → IsBounded l s
    → IsBounded l (apply_event e s)
unfolding apply_event before_opcode enter_call exit_call restore_call_depth reserve_output wrap ◌+ℤ◌
    ◌-ℤ◌ check_context
apply_event-IsBounded l (opcode a) s f e b = ground arith
apply_event-IsBounded l (enter a) s f e b = ground arith
apply_event-IsBounded l exit s f e b = ground arith
apply_event-IsBounded l (restore n) s f e b = ground arith
apply_event-IsBounded l (write a n) s f e b = ground arith

-- From a state within its limits, whatever sequence of opcodes, calls, returns, resumes and writes
-- follows and whatever the host's context answers, the call depth and the output count stay
-- between 0 and their limits. The limits are positive and below 2^62, a resume restores a depth
-- within the limit, and no single write reaches 2^62 bytes.
pub apply_events-IsBounded :
    (l : ExecutionLimits) (es : List Event) (s : ExecutionState)
    → LimitsFit l
    → EventsFit l es
    → IsBounded l s
    → IsBounded l (apply_events es s)
unfolding apply_events
apply_events-IsBounded l [] s f h b = b
apply_events-IsBounded l (e ∷ es) s f h b =
    apply_events-IsBounded l es (apply_event e s) f h.1 (apply_event-IsBounded l e s f h.0 b)

-- A successful `EnterCall` within the limits is undone by `ExitCall`.
pub exit_call-enter_call :
    (l : ExecutionLimits) (a : Option HostError) (s : ExecutionState)
    → LimitsFit l
    → IsBounded l s
    → (enter_call a s).1 ≡ none
    → exit_call (enter_call a s).0 ≡ s
unfolding enter_call exit_call wrap ◌+ℤ◌ ◌-ℤ◌ check_context
exit_call-enter_call l a s f b h = ground arith

-- When the host's context is done, each checked operation changes nothing and returns the
-- context's error, mapped to a Python exception where one is defined.
pub cancelled_stops :
    (e : HostError) (n : ℤ) (s : ExecutionState)
    → s.host_context ≡ true
    → (before_opcode (some e) s ≡ (s, some (context_error e)))
      × (enter_call (some e) s ≡ (s, some (context_error e)))
      × (reserve_output (some e) n s ≡ (s, some (context_error e)))
unfolding before_opcode enter_call reserve_output check_context exception_from_context_error
cancelled_stops e n s h = ground arith
