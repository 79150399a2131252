-- ===== src/Execution/Budget.antt =====
-- py/execution.go: the instruction budget over a run of opcodes.
use taipan.Prelude.{ℕ, zero, suc, ◌+◌, ◌<◌, ◌≤◌, ◌≡◌, refl, none, some, arith, leb, if◌then◌else◌}
use taipan.Prelude.Int.{pos, wrap, ◌+ℤ◌}
use taipan.Execution.{ExecutionState, Outcome, before_opcode, instruction_limit, and_then}

-- `n` opcodes in a row, under a host context that is not done, up to the first error.
unfoldable pub run_opcodes : ℕ → ExecutionState → Outcome
run_opcodes zero s = (s, none)
run_opcodes (suc n) s = and_then (before_opcode none s) (run_opcodes n)

abbrev counted : ExecutionState → ℕ → ExecutionState
counted s n = record s { instruction_count = pos n }

module _ (s : ExecutionState) (c m : ℕ) (count : s.instruction_count ≡ pos c)
    (limit : s.limits.max_instructions ≡ pos m) (positive : 0 < m)
    (fits : m < 0x7fff_ffff_ffff_ffff) (within : c ≤ m) where
  before_opcode_step : before_opcode none s ≡ (
      if leb (c + 1) m
      then (counted s (c + 1), none)
      else (counted s (suc m), some instruction_limit))
  unfolding before_opcode wrap ◌+ℤ◌
  before_opcode_step = rw (count, limit) (ground arith)

-- With `m` the limit and `c` opcodes already counted, running `n` opcodes under a live host
-- context succeeds exactly when `c + n` is at most `m`; then exactly `n` are counted. Otherwise the
-- run stops with the instruction limit's error at opcode number `m + 1`.
pub run_opcodes_budget :
    (n c m : ℕ) (s : ExecutionState)
    → s.instruction_count ≡ pos c
    → s.limits.max_instructions ≡ pos m
    → 0 < m
    → m < 0x7fff_ffff_ffff_ffff
    → c ≤ m
    → run_opcodes n s ≡ (
        if leb (c + n) m
        then (counted s (c + n), none)
        else (counted s (suc m), some instruction_limit))
unfolding run_opcodes
run_opcodes_budget zero c m s count limit positive fits within = ground arith
run_opcodes_budget (suc n) c m s count limit positive fits within = ground (
  arith,
  before_opcode_step s c m count limit positive fits within,
  run_opcodes_budget n (c + 1) m (counted s (c + 1)) refl limit positive fits,
)
