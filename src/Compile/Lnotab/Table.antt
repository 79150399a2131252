-- ===== src/Compile/Lnotab/Table.antt =====
-- compile/instructions.go and py/code.go: the table of a placed stream, looked up in 32 bits.
use taipan.Prelude.{
  ℕ, zero, suc, ◌+◌, ◌-◌, ◌<◌, ◌≤◌, ◌≡◌, refl, ◌∙◌, Bool, true, false, some, List, [], ◌∷◌, ◌++◌,
  Bytes, ◌==◌, ltb, leb, if◌then◌else◌, arith, Bool-cases, inl, inr, length,
}
use taipan.Prelude.Int.{pos, wrap32_sum}
use taipan.Compile.Instructions.{Instruction, Labels, pos_of, size, outputs, u32}
use taipan.Compile.Instructions.Layout.{Placed}
use taipan.Compile.Instructions.Targets.{length-outputs_cons, Placed-at, Ends, length-outputs_at}
use taipan.Compile.Lnotab.{
  skip_bytes, skip_lines, entry, lnotab_loop, lnotab, addr2line_loop, addr2line,
}
use taipan.Compile.Lnotab.Lines.{
  line_at, line_up_to, Ascends, Ascends-le, lnotab_loop-line_at, line_up_to_late,
}

-- A table of pairs, each of which steps over a byte's number of bytes at most.
abbrev Pairs : Bytes → Type 0
Pairs [] = Unit
Pairs (b ∷ []) = ⊥
Pairs (b ∷ l ∷ rest) = (b ≤ 255) × Pairs rest

Pairs-append : (p p' : Bytes) → Pairs p → Pairs p' → Pairs (p ++ p')
Pairs-append [] p' h h' = h'
Pairs-append (b ∷ []) p' h h' = elim h [ ]
Pairs-append (b ∷ l ∷ p) p' h h' = (h.0, Pairs-append p p' h.1 h')

if-Pairs : (t : Bool) (p p' : Bytes) → Pairs p → Pairs p' → Pairs (if t then p else p')
if-Pairs true p p' h h' = h
if-Pairs false p p' h h' = h'

skip_bytes-Pairs : (fuel d : ℕ) → Pairs (skip_bytes fuel d).0
unfolding skip_bytes
skip_bytes-Pairs zero d = tt
skip_bytes-Pairs (suc fuel) d = elim (Bool-cases (ltb 255 d)) [
  | inl more ↦ rw more (omega arith, skip_bytes-Pairs fuel (d - 255))
  | inr last ↦ rw last tt
]

skip_lines-Pairs : (fuel b d : ℕ) → Pairs (skip_lines fuel b d).0
unfolding skip_lines
skip_lines-Pairs zero b d = tt
skip_lines-Pairs (suc fuel) b d = elim (Bool-cases (ltb 255 d)) [
  | inl more ↦ rw more (omega arith, skip_lines-Pairs fuel 0 (d - 255))
  | inr last ↦ rw last tt
]

entry-Pairs : (b d : ℕ) → Pairs (entry b d)
unfolding entry
entry-Pairs b d = Pairs-append (skip_bytes b b).0 _ (skip_bytes-Pairs b b) (
    Pairs-append (skip_lines d (skip_bytes b b).1 d).0 _ (skip_lines-Pairs d (skip_bytes b b).1 d) (
      if-Pairs (ltb 0 (skip_lines d (skip_bytes b b).1 d).1) _ _ (omega arith, tt)
        (omega arith, tt)))

lnotab_loop-Pairs :
    (ls : Labels) (offset line : ℕ) (xs : List Instruction) → Pairs (lnotab_loop ls offset line xs)
unfolding lnotab_loop
lnotab_loop-Pairs ls offset line [] = tt
lnotab_loop-Pairs ls offset line (x ∷ xs) =
    let same = lnotab_loop-Pairs ls offset line xs in
    if-Pairs (size x == 0) _ _ same (
      if-Pairs (leb (pos_of ls x).lineno line) _ _ same (
        Pairs-append
          (entry (u32 ((pos_of ls x).p + 0x1_0000_0000 - offset)) ((pos_of ls x).lineno - line)) _
          (entry-Pairs (u32 ((pos_of ls x).p + 0x1_0000_0000 - offset))
            ((pos_of ls x).lineno - line))
          (lnotab_loop-Pairs ls (pos_of ls x).p (pos_of ls x).lineno xs)))

le-line_at : (t : Bytes) (addr line q : ℕ) → line ≤ line_at t addr line q
le-line_at [] addr line q = omega arith
le-line_at (b ∷ []) addr line q = omega arith
le-line_at (b ∷ l ∷ t) addr line q = ground (arith, le-line_at t (addr + b) (line + l) q)

-- The loop in 32 bits, where nothing wraps.
addr2line_loop-line_at :
    (t : Bytes) (addr line q : ℕ)
    → Pairs t
    → q < 0x7fff_ff00
    → addr ≤ q
    → line_at t addr line q < 0x8000_0000
    → addr2line_loop t (pos addr) (pos line) (pos q) ≡ some (pos (line_at t addr line q))
unfolding addr2line_loop
addr2line_loop-line_at [] addr line q p h k f = refl
addr2line_loop-line_at (b ∷ []) addr line q p h k f = elim p [ ]
addr2line_loop-line_at (b ∷ l ∷ t) addr line q p h k f = elim (Bool-cases (ltb q (addr + b))) [
  | inl stop ↦ rw (wrap32_sum addr b (omega arith)) (ground arith)
  | inr on ↦
      let rest = rw on at f in
      rw
        (
          wrap32_sum addr b (omega arith),
          wrap32_sum line l (omega (arith, le-line_at t (addr + b) (line + l) q)),
        )
        (ground (arith, addr2line_loop-line_at t (addr + b) (line + l) q p.1 h (ground arith) rest))
]

-- Placed instructions ascend.
Placed-Ascends :
    (ls : Labels) (addr : ℕ) (xs : List Instruction)
    → addr + length (outputs xs) < 0x1_0000_0000
    → Placed ls addr xs
    → Ascends ls addr xs
Placed-Ascends ls addr [] h p = tt
Placed-Ascends ls addr (x ∷ xs) h p =
    let n = length-outputs_cons x xs in
    let e : u32 (addr + size x) ≡ addr + size x = omega arith in
    let rest = Placed-Ascends ls (addr + size x) xs (omega arith) (rw e at p.2) in
    (
      omega (arith, p.0),
      omega (arith, p.0),
      Ascends-le ls (addr + size x) (pos_of ls x).p xs (omega (arith, p.0)) rest,
    )

-- For a placed stream of fewer than 2^32 bytes: the line that `Addr2Line` finds for an address in
-- the table that `Lnotab` makes, counting from line 1, is the highest line of the instructions that
-- start at that address or before it. The address is below 2^31 - 256 and the line below 2^31.
pub addr2line-lnotab :
    (ls : Labels) (xs : List Instruction) (q : ℕ)
    → length (outputs xs) < 0x1_0000_0000
    → Placed ls 0 xs
    → q < 0x7fff_ff00
    → line_up_to ls q 1 xs < 0x8000_0000
    → addr2line (pos 1) (lnotab ls xs) (pos q) ≡ some (pos (line_up_to ls q 1 xs))
unfolding addr2line lnotab
addr2line-lnotab ls xs q h p k f =
    let e =
      lnotab_loop-line_at ls 0 1 q xs (omega arith) (Placed-Ascends ls 0 xs (omega arith) p) in
    addr2line_loop-line_at (lnotab_loop ls 0 1 xs) 0 1 q (lnotab_loop-Pairs ls 0 1 xs) k
      (omega arith) (rw e f)
    ∙ rw e

-- The lines of the instructions that have bytes do not fall.
abbrev pub LinesAscend : Labels → ℕ → List Instruction → Type 0
LinesAscend ls line [] = Unit
LinesAscend ls line (x ∷ xs) =
    (0 < size x → line ≤ (pos_of ls x).lineno)
    × LinesAscend ls (if size x == 0 then line else (pos_of ls x).lineno) xs

own_line :
    (ls : Labels) (addr line q : ℕ) (pre post : List Instruction) (x : Instruction)
    → Ends addr (pre ++ x ∷ post)
    → Placed ls addr (pre ++ x ∷ post)
    → LinesAscend ls line (pre ++ x ∷ post)
    → 0 < size x
    → q ≡ addr + length (outputs pre)
    → line_up_to ls q line (pre ++ x ∷ post) ≡ (pos_of ls x).lineno
unfolding line_up_to
own_line ls addr line q [] post x h p a s e =
    let n = length-outputs_cons x post in
    let w : u32 (addr + size x) ≡ addr + size x = omega arith in
    let behind = Placed-Ascends ls (addr + size x) post (omega arith) (rw w at p.2) in
    let z : length (outputs []) ≡ 0 = unfold outputs in refl in
    ground (arith, a.0, p.0, line_up_to_late ls q (addr + size x) (pos_of ls x).lineno post)
own_line ls addr line q (y ∷ pre) post x h p a s e =
    let n = length-outputs_cons y (pre ++ x ∷ post) in
    let w : u32 (addr + size y) ≡ addr + size y = omega arith in
    let line' = if size y == 0 then line else (pos_of ls y).lineno in
    let rest =
      own_line ls (addr + size y) line' q pre post x (omega arith) (rw w at p.2) a.1 s
        (omega (arith, length-outputs_cons y pre)) in
    ground (arith, a.0, p.0, rest, length-outputs_cons y pre)

-- Where the lines do not fall from one instruction to the next, the table that `Lnotab` makes of a
-- placed stream gives each instruction's address back its own line: for a stream of fewer than
-- 2^31 - 256 bytes, lines from 1 to below 2^31, and an instruction that has bytes.
pub addr2line_own :
    (ls : Labels) (pre post : List Instruction) (x : Instruction)
    → length (outputs (pre ++ x ∷ post)) < 0x7fff_ff00
    → Placed ls 0 (pre ++ x ∷ post)
    → LinesAscend ls 1 (pre ++ x ∷ post)
    → 0 < size x
    → (pos_of ls x).lineno < 0x8000_0000
    → addr2line (pos 1) (lnotab ls (pre ++ x ∷ post)) (pos (pos_of ls x).p)
      ≡ some (pos (pos_of ls x).lineno)
addr2line_own ls pre post x h p a s f =
    let at = Placed-at ls 0 pre post x (omega arith) p in
    let long = length-outputs_at pre post x in
    let own = own_line ls 0 1 (pos_of ls x).p pre post x (omega arith) p a s at.0 in
    addr2line-lnotab ls (pre ++ x ∷ post) (pos_of ls x).p (omega arith) p (omega (arith, at.0))
      (rw own f)
    ∙ rw own
