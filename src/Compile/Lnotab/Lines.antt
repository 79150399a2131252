-- ===== src/Compile/Lnotab/Lines.antt =====
-- compile/instructions.go and py/code.go: the line that the table gives for an address.
use taipan.Prelude.{
  ℕ, zero, suc, ◌+◌, ◌-◌, ◌%◌, ◌<◌, ◌≤◌, ◌≡◌, refl, sym, List, [], ◌∷◌, ◌++◌, append_assoc, Bytes,
  ◌==◌, ltb, leb, ltb→lt, if◌then◌else◌, arith, Bool-cases, inl, inr,
}
use taipan.Compile.Instructions.{Instruction, Labels, pos_of, size, u32}
use taipan.Compile.Lnotab.{skip_bytes, skip_lines, entry, last_pair, lnotab_loop}

-- `Addr2Line`'s loop over pairs, in natural numbers.
abbrev pub line_at : Bytes → ℕ → ℕ → ℕ → ℕ
line_at (b ∷ l ∷ rest) addr line q =
    if ltb q (addr + b) then line else line_at rest (addr + b) (line + l) q
line_at _ addr line q = line

-- What a table part for a step of `b` bytes and `d` lines does.
abbrev Steps : ℕ → ℕ → Bytes → Type 0
Steps b d part =
    (rest : Bytes) (addr line q : ℕ)
    → line_at (part ++ rest) addr line q
      ≡ (if ltb q (addr + b) then line else line_at rest (addr + b) (line + d) q)

pair-Steps : (b d : ℕ) → Steps b d (b ∷ d ∷ [])
pair-Steps b d rest addr line q = refl

-- Two parts in a row, the first of which steps over bytes alone, or the second over lines alone.
bytes-Steps : (b b' d : ℕ) (p p' : Bytes) → Steps b 0 p → Steps b' d p' → Steps (b + b') d (p ++ p')
bytes-Steps b b' d p p' h h' rest addr line q =
    rw (append_assoc p p' rest, h (p' ++ rest) addr line q, h' rest (addr + b) (line + 0) q)
      (ground arith)

lines-Steps : (b d d' : ℕ) (p p' : Bytes) → Steps b d p → Steps 0 d' p' → Steps b (d + d') (p ++ p')
lines-Steps b d d' p p' h h' rest addr line q =
    rw (append_assoc p p' rest, h (p' ++ rest) addr line q, h' rest (addr + b) (line + d) q)
      (ground arith)

Steps-eq : (b b' d d' : ℕ) (p : Bytes) → b ≡ b' → d ≡ d' → Steps b d p → Steps b' d' p
Steps-eq b b' d d' p e f h rest addr line q = rw (← e, ← f) (h rest addr line q)

last_pair-Steps : (b d : ℕ) → b ≤ 255 → d ≤ 255 → Steps b d (last_pair b d)
last_pair-Steps b d h k rest addr line q = ground arith

long-Steps :
    (fuel b d : ℕ)
    → d ≤ fuel
    → b ≤ 255
    → let long = skip_lines fuel b d in Steps b d (long.0 ++ last_pair long.1 long.2)
unfolding skip_lines
long-Steps zero b d h k = last_pair-Steps b d k (omega arith)
long-Steps (suc fuel) b d h k = elim (Bool-cases (ltb 255 d)) [
  | inl more ↦
      let r = skip_lines fuel 0 (d - 255) in
      let rest = long-Steps fuel 0 (d - 255) (ground arith) (omega arith) in
      let both =
        lines-Steps b 255 (d - 255) (b ∷ 255 ∷ []) (r.0 ++ last_pair r.1 r.2) (pair-Steps b 255)
          rest in
      let small : b % 256 ≡ b = omega arith in
      rw (more, small)
        (Steps-eq b b (255 + (d - 255)) d ((b ∷ 255 ∷ []) ++ (r.0 ++ last_pair r.1 r.2)) refl
          (ground arith) both)
  | inr last ↦ rw last (last_pair-Steps b d k (ground arith))
]

wide-Steps :
    (fuel b d : ℕ) (tail : ℕ → Bytes)
    → b ≤ fuel
    → ((r : ℕ) → r ≤ 255 → Steps r d (tail r))
    → let wide = skip_bytes fuel b in Steps b d (wide.0 ++ tail wide.1)
unfolding skip_bytes
wide-Steps zero b d tail h t = t b (omega arith)
wide-Steps (suc fuel) b d tail h t = elim (Bool-cases (ltb 255 b)) [
  | inl more ↦
      let r = skip_bytes fuel (b - 255) in
      let rest = wide-Steps fuel (b - 255) d tail (ground arith) t in
      let both =
        bytes-Steps 255 (b - 255) d (255 ∷ 0 ∷ []) (r.0 ++ tail r.1) (pair-Steps 255 0) rest in
      rw more (
        Steps-eq (255 + (b - 255)) b d d ((255 ∷ 0 ∷ []) ++ (r.0 ++ tail r.1)) (ground arith) refl
          both)
  | inr last ↦ rw last (t b (ground arith))
]

entry-Steps : (b d : ℕ) → Steps b d (entry b d)
unfolding entry
entry-Steps b d =
    wide-Steps b b d
      (λ r. (skip_lines d r d).0 ++ last_pair (skip_lines d r d).1 (skip_lines d r d).2)
      (omega arith) (λ r h. long-Steps d r d (omega arith) h)

-- The highest line so far among the instructions up to an address.
unfoldable pub line_up_to : Labels → ℕ → ℕ → List Instruction → ℕ
line_up_to ls q line [] = line
line_up_to ls q line (x ∷ xs) =
    line_up_to ls q
      (if size x == 0
        then line
        else if ltb q (pos_of ls x).p
        then line
        else if leb (pos_of ls x).lineno line
        then line
        else (pos_of ls x).lineno)
      xs

-- Positions do not fall, and fit in 32 bits.
abbrev pub Ascends : Labels → ℕ → List Instruction → Type 0
Ascends ls p [] = Unit
Ascends ls p (x ∷ xs) =
    (p ≤ (pos_of ls x).p) × ((pos_of ls x).p < 0x1_0000_0000) × Ascends ls (pos_of ls x).p xs

pub line_up_to_late :
    (ls : Labels) (q p line : ℕ) (xs : List Instruction)
    → q < p
    → Ascends ls p xs
    → line_up_to ls q line xs ≡ line
unfolding line_up_to
line_up_to_late ls q p line [] h a = refl
line_up_to_late ls q p line (x ∷ xs) h a =
    ground (arith, line_up_to_late ls q (pos_of ls x).p line xs (omega arith) a.2)

pub Ascends-le :
    (ls : Labels) (p p' : ℕ) (xs : List Instruction) → p' ≤ p → Ascends ls p xs → Ascends ls p' xs
Ascends-le ls p p' [] h a = tt
Ascends-le ls p p' (x ∷ xs) h a = (omega arith, a.1, a.2)

pub lnotab_loop-line_at :
    (ls : Labels) (offset line q : ℕ) (xs : List Instruction)
    → offset ≤ q
    → Ascends ls offset xs
    → line_at (lnotab_loop ls offset line xs) offset line q ≡ line_up_to ls q line xs
unfolding lnotab_loop line_up_to
lnotab_loop-line_at ls offset line q [] h a = refl
lnotab_loop-line_at ls offset line q (x ∷ xs) h a =
    let p = (pos_of ls x).p in
    let l = (pos_of ls x).lineno in
    let same = lnotab_loop-line_at ls offset line q xs h (Ascends-le ls p offset xs a.0 a.2) in
    elim (Bool-cases (size x == 0)) [
      | inl empty ↦ rw empty same
      | inr sized ↦ elim (Bool-cases (leb l line)) [
        | inl back ↦
            rw (sized, back)
              (elim (Bool-cases (ltb q p)) [ inl late ↦ rw late same | inr early ↦ rw early same ])
        | inr forth ↦
            let step = u32 (p + 0x1_0000_0000 - offset) in
            let b : offset + step ≡ p = omega (arith, a.1) in
            let d : line + (l - line) ≡ l = ground arith in
            rw (sized, forth, entry-Steps step (l - line) _ offset line q, b, d)
              (elim (Bool-cases (ltb q p)) [
                | inl late ↦ rw late (sym (line_up_to_late ls q p line xs (ltb→lt q p late) a.2))
                | inr early ↦ rw early (lnotab_loop-line_at ls p l q xs (ground arith) a.2)
              ])
      ]
    ]
