-- ===== src/Compile/Lnotab.antt =====
-- compile/instructions.go: `Lnotab`, and py/code.go: `Addr2Line`. Line numbers are natural numbers;
-- `Addr2Line` adds in 32 bits, and a table of odd length is the panic `none`.
pub mod Lines
pub mod Table
mod Tests
use taipan.Prelude.{
  ℕ, zero, suc, ◌+◌, ◌-◌, ◌%◌, Bool, Option, none, some, List, [], ◌∷◌, ◌++◌, Bytes, ◌==◌, ltb, leb,
  if◌then◌else◌,
}
use taipan.Prelude.Int.{ℤ, pos, wrap32, ◌+ℤ◌, ltb_ℤ}
use taipan.Compile.Instructions.{Instruction, Labels, pos_of, size, u32}

-- `for d_bytecode > 255`: the bytes appended, and what is left of `d_bytecode`.
unfoldable pub skip_bytes : ℕ → ℕ → Bytes × ℕ
skip_bytes zero d = ([], d)
skip_bytes (suc fuel) d =
    let rest = skip_bytes fuel (d - 255) in
    if ltb 255 d then (255 ∷ 0 ∷ rest.0, rest.1) else ([], d)

-- `for d_lineno > 255`: the bytes appended, and what is left of both.
unfoldable pub skip_lines : ℕ → ℕ → ℕ → Bytes × ℕ × ℕ
skip_lines zero b d = ([], b, d)
skip_lines (suc fuel) b d =
    let rest = skip_lines fuel 0 (d - 255) in
    if ltb 255 d then (b % 256 ∷ 255 ∷ rest.0, rest.1, rest.2) else ([], b, d)

abbrev last_pair : ℕ → ℕ → Bytes
last_pair b d = if ltb 0 b then b % 256 ∷ d % 256 ∷ [] else 0 ∷ d % 256 ∷ []

-- The bytes for a step of `d_bytecode` bytes and `d_lineno` lines. The fuel of each loop is its
-- counter, which falls by 255 at a round.
unfoldable pub entry : ℕ → ℕ → Bytes
unfolding skip_bytes skip_lines
entry d_bytecode d_lineno =
    let wide = skip_bytes d_bytecode d_bytecode in
    let long = skip_lines d_lineno wide.1 d_lineno in wide.0 ++ (long.0 ++ last_pair long.1 long.2)

-- The loop of `Lnotab`; `d_lineno <= 0` is a line that is not behind the last one.
unfoldable pub lnotab_loop : Labels → ℕ → ℕ → List Instruction → Bytes
lnotab_loop ls old_offset old_lineno [] = []
lnotab_loop ls old_offset old_lineno (x ∷ xs) =
    let same = lnotab_loop ls old_offset old_lineno xs in
    let line = (pos_of ls x).lineno in
    let offset = (pos_of ls x).p in
    let next =
      entry (u32 (offset + 0x1_0000_0000 - old_offset)) (line - old_lineno)
      ++ lnotab_loop ls offset line xs in
    if size x == 0 then same else if leb line old_lineno then same else next

unfoldable pub lnotab : Labels → List Instruction → Bytes
unfolding lnotab_loop entry size
lnotab ls xs = lnotab_loop ls 0 1 xs

-- The loop of `Addr2Line`.
unfoldable pub addr2line_loop : Bytes → ℤ → ℤ → ℤ → Option ℤ
addr2line_loop [] addr line addrq = some line
addr2line_loop (b ∷ []) addr line addrq =
    if ltb_ℤ addrq (wrap32 (addr +ℤ pos b)) then some line else none
addr2line_loop (b ∷ l ∷ rest) addr line addrq =
    let next = addr2line_loop rest (wrap32 (addr +ℤ pos b)) (wrap32 (line +ℤ pos l)) addrq in
    if ltb_ℤ addrq (wrap32 (addr +ℤ pos b)) then some line else next

unfoldable pub addr2line : ℤ → Bytes → ℤ → Option ℤ
unfolding addr2line_loop
addr2line first_lineno table addrq = addr2line_loop table (pos 0) first_lineno addrq
