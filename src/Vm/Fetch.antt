-- ===== src/Vm/Fetch.antt =====
-- vm/eval.go: how `runFrame` reads the next opcode and its argument, and `do_EXTENDED_ARG`.
use mathlib.Core.Option
use taipan.Prelude.{ℕ, ◌+◌, ◌*◌, true, false, Option, none, some, Bytes, get_elem?, if◌then◌else◌}
use taipan.Prelude.Int.{ℤ, pos, negsuc, wrap32, ◌+ℤ◌, ◌*ℤ◌}
use taipan.Opcodes.{has_arg}
use taipan.Vm.State.{Vm, Effect, done}

-- `opcodes[frame.Lasti]`, which panics out of range, and `frame.Lasti++` in 32 bits.
abbrev pub code_at : Bytes → ℤ → Option ℕ
code_at code (pos n) = get_elem? code n
code_at code (negsuc n) = none

unfoldable pub next_byte : Bytes → Vm → Option (ℕ × Vm)
next_byte code vm =
    Option.map (λ b. (b, record vm { lasti = wrap32 (vm.lasti +ℤ pos 1) })) (code_at code vm.lasti)

-- `arg += vm.ext << 16` when the opcode before was EXTENDED_ARG.
abbrev pub extend : ℤ → Vm → ℤ
extend arg vm = if vm.extended then wrap32 (arg +ℤ wrap32 (vm.ext *ℤ pos 65536)) else arg

unfoldable pub fetch_arg : Bytes → ℕ → Vm → Option (ℕ × ℤ × Vm)
fetch_arg code op vm = Option.bind (next_byte code vm) (λ a.
    Option.map (λ b. (op, extend (pos (a.0 + b.0 * 256)) b.1, record b.1 { extended = false }))
      (next_byte code a.1))

-- The opcode's byte, its argument (0 for an opcode without one, which does not look at it) and the
-- machine behind them.
unfoldable pub fetch : Bytes → Vm → Option (ℕ × ℤ × Vm)
fetch code vm = Option.bind (next_byte code vm) (λ o.
    if has_arg o.0
    then fetch_arg code o.0 o.1
    else some (o.0, pos 0, record o.1 { extended = false }))

unfoldable pub do_extended_arg : ℤ → Vm → Effect
do_extended_arg ext vm = done (record vm { ext = ext; extended = true })
