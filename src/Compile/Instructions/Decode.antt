-- ===== src/Compile/Instructions/Decode.antt =====
-- compile/instructions.go against vm/eval.go: the bytes that the assembler writes, and how the machine reads them.
use mathlib.Core.Option
use taipan.Prelude.{
  ℕ, suc, ◌+◌, ◌*◌, ◌/◌, ◌%◌, ◌<◌, ◌≤◌, ◌≡◌, refl, ap, ◌∙◌, true, false, Option, none, some, [],
  ◌∷◌, ◌++◌, ◌==◌, Bytes, get_elem?, length, length-append, append_assoc, if◌then◌else◌, arith,
  Bool-cases, inl, inr, leb, ltb, ltb→lt,
}
use taipan.Prelude.Int.{ℤ, pos, wrap32_pos, ◌+ℤ◌, ◌*ℤ◌}
use taipan.Opcodes.{OpCode, byte, has_arg, extended_arg}
use taipan.Vm.State.{Vm, Effect, done}
use taipan.Vm.Fetch.{fetch, next_byte, extend, do_extended_arg, fetch_arg}
use taipan.Compile.Instructions.{arg_output, arg_size}

-- The next opcode that is not EXTENDED_ARG.
abbrev resume : Bytes → Effect → Option (ℕ × ℤ × Vm)
resume code (done vm) = fetch code vm
resume code _ = none

unfoldable pub fetch_extended : Bytes → Vm → Option (ℕ × ℤ × Vm)
fetch_extended code vm =
    Option.bind (fetch code vm)
      (λ r. if r.0 == byte extended_arg then resume code (do_extended_arg r.1 r.2) else some r)

get_elem?-append_right :
    (pre rest : Bytes) (k : ℕ) → get_elem? (pre ++ rest) (length pre + k) ≡ get_elem? rest k
get_elem?-append_right [] rest k = ap (get_elem? rest) (omega arith)
get_elem?-append_right (x ∷ pre) rest k =
    let e : suc (length pre) + k ≡ suc (length pre + k) = omega arith in
    ap (get_elem? (x ∷ (pre ++ rest))) e ∙ get_elem?-append_right pre rest k

next_byte_lem :
    (code : Bytes) (vm : Vm) (n m b : ℕ)
    → vm.lasti ≡ pos n
    → get_elem? code n ≡ some b
    → n + 1 ≡ m
    → m < 0x8000_0000
    → next_byte code vm ≡ some (b, record vm { lasti = pos m })
unfolding next_byte ◌+ℤ◌
next_byte_lem code vm n m b l e k h = ground (arith, wrap32_pos m)

-- Three bytes at the machine's position.
record ThreeAt (code : Bytes) (n o a b : ℕ) : Type 0 where
  first : get_elem? code n ≡ some o
  second : get_elem? code (n + 1) ≡ some a
  third : get_elem? code (n + 2) ≡ some b

three_at : (pre post : Bytes) (o a b : ℕ) → ThreeAt (pre ++ (o ∷ a ∷ b ∷ post)) (length pre) o a b
three_at pre post o a b =
    let rest = o ∷ a ∷ b ∷ post in
    let z : length pre ≡ length pre + 0 = omega arith in
    record {
      first = ap (get_elem? (pre ++ rest)) z ∙ get_elem?-append_right pre rest 0;
      second = get_elem?-append_right pre rest 1;
      third = get_elem?-append_right pre rest 2;
    }

fetch_three :
    (code : Bytes) (vm : Vm) (n o a b : ℕ)
    → vm.lasti ≡ pos n
    → ThreeAt code n o a b
    → has_arg o ≡ true
    → n + 3 < 0x8000_0000
    → fetch code vm
      ≡ some (o, extend (pos (a + b * 256)) vm, record vm { lasti = pos (n + 3); extended = false })
unfolding fetch fetch_arg Option.bind
fetch_three code vm n o a b l t h fits =
    let vm₁ : Vm = record vm { lasti = pos (n + 1) } in
    let vm₂ : Vm = record vm { lasti = pos (n + 2) } in
    let e₁ = next_byte_lem code vm n (n + 1) o l t.first refl (omega arith) in
    let e₂ = next_byte_lem code vm₁ (n + 1) (n + 2) a refl t.second (omega arith) (omega arith) in
    let e₃ = next_byte_lem code vm₂ (n + 2) (n + 3) b refl t.third (omega arith) (omega arith) in
    rw (e₁, h, e₂, e₃)

-- The two halves of an argument, put together again.
low_half : (a : ℕ) → a ≤ 0xffff → a % 256 + a / 256 % 256 * 256 ≡ a
low_half a h = omega arith

high_half : (a : ℕ) → a < 0x8000_0000 → a / 65536 % 256 + a / 16777216 % 256 * 256 ≡ a / 65536
high_half a h = omega arith

extend_halves :
    (a : ℕ) (vm : Vm)
    → a < 0x8000_0000
    → vm.extended ≡ true
    → vm.ext ≡ pos (a / 65536)
    → extend (pos (a % 256 + a / 256 % 256 * 256)) vm ≡ pos a
unfolding ◌+ℤ◌ ◌*ℤ◌
extend_halves a vm h t e = ground (arith, wrap32_pos (a / 65536 * 65536), wrap32_pos a)

abbrev pub behind : ℕ → ℕ → Vm → Vm
behind n a vm = record vm {
  lasti = pos (n + arg_size a);
  extended = false;
  ext = if leb a 0xffff then vm.ext else pos (a / 65536);
}

module _ (o : OpCode) (a : ℕ) (pre post : Bytes) (vm : Vm) (arg : has_arg (byte o) ≡ true)
    (plain : (byte o == byte extended_arg) ≡ false) (fits : a < 0x8000_0000)
    (room : length pre + 6 < 0x8000_0000) (here : vm.lasti ≡ pos (length pre))
    (fresh : vm.extended ≡ false) where
  decode_short :
      a ≤ 0xffff
      → fetch_extended (pre ++ (byte o ∷ a % 256 ∷ a / 256 % 256 ∷ post)) vm
        ≡ some (byte o, pos a, behind (length pre) a vm)
  unfolding fetch_extended Option.bind
  decode_short h =
      let t = three_at pre post (byte o) (a % 256) (a / 256 % 256) in
      let e = fetch_three _ vm (length pre) (byte o) _ _ here t arg (omega arith) in
      rw (e, plain) (ground (arith, low_half a h))

  -- Behind the prefix.
  abbrev prefixed : Vm
  prefixed = record vm { lasti = pos (length pre + 3); ext = pos (a / 65536); extended = true }

  abbrev prefix : Bytes
  prefix = byte extended_arg ∷ a / 65536 % 256 ∷ a / 16777216 % 256 ∷ []

  decode_prefix :
      (rest : Bytes)
      → fetch (pre ++ (byte extended_arg ∷ a / 65536 % 256 ∷ a / 16777216 % 256 ∷ rest)) vm
        ≡ some (byte extended_arg, pos (a / 65536), record vm { lasti = pos (length pre + 3) })
  decode_prefix rest =
      let t = three_at pre rest (byte extended_arg) (a / 65536 % 256) (a / 16777216 % 256) in
      let e =
        fetch_three _ vm (length pre) (byte extended_arg) _ _ here t (unfold byte has_arg in refl)
          (omega arith) in
      rw e (ground (arith, high_half a fits))

  decode_body :
      (rest : Bytes) (n : ℕ)
      → n ≡ length pre + 3
      → length rest ≡ n
      → 0xffff < a
      → fetch (rest ++ (byte o ∷ a % 256 ∷ a / 256 % 256 ∷ post)) prefixed
        ≡ some (byte o, pos a, behind (length pre) a vm)
  decode_body rest n k l h =
      let t = three_at rest post (byte o) (a % 256) (a / 256 % 256) in
      let e =
        fetch_three _ prefixed (length rest) (byte o) _ _ (ap pos (omega arith)) t arg
          (omega arith) in
      rw (e, extend_halves a prefixed fits refl refl)
        (let z : length rest + 3 ≡ length pre + 6 = omega arith in rw z (ground arith))

  decode_long :
      0xffff < a
      → fetch_extended
          (pre
            ++ (byte extended_arg
                ∷ a / 65536 % 256
                ∷ a / 16777216 % 256
                ∷ byte o
                ∷ a % 256
                ∷ a / 256 % 256
                ∷ post))
          vm
        ≡ some (byte o, pos a, behind (length pre) a vm)
  unfolding fetch_extended Option.bind do_extended_arg
  decode_long h =
      let body = byte o ∷ a % 256 ∷ a / 256 % 256 ∷ post in
      let is_prefix : (byte extended_arg == byte extended_arg) ≡ true = unfold byte in refl in
      let e = decode_body (pre ++ prefix) (length pre + 3) refl (length-append pre prefix) h in
      rw (decode_prefix body, is_prefix) (rw (append_assoc pre prefix body) at e)

  -- The machine reads back what the assembler writes for an instruction with an argument below
  -- 2^31, wherever it stands in the code, with or without the EXTENDED_ARG in front: the opcode,
  -- the argument, and the position behind the instruction's size. The opcode is one that takes an
  -- argument and is not EXTENDED_ARG itself, and the code up to behind it is below 2^31 bytes.
  pub fetch_extended-arg_output :
      fetch_extended (pre ++ (arg_output o a ++ post)) vm
      ≡ some (byte o, pos a, behind (length pre) a vm)
  unfolding arg_output
  fetch_extended-arg_output = elim (Bool-cases (ltb 0xffff a)) [
    | inl long ↦ rw long (decode_long (ltb→lt 0xffff a long))
    | inr short ↦ rw short (decode_short (ground arith))
  ]

-- The machine reads back an instruction without an argument.
pub fetch_extended-op :
    (o : OpCode) (pre post : Bytes) (vm : Vm)
    → has_arg (byte o) ≡ false
    → (byte o == byte extended_arg) ≡ false
    → length pre + 1 < 0x8000_0000
    → vm.lasti ≡ pos (length pre)
    → vm.extended ≡ false
    → fetch_extended (pre ++ (byte o ∷ post)) vm
      ≡ some (byte o, pos 0, record vm { lasti = pos (length pre + 1); extended = false })
unfolding fetch_extended fetch Option.bind
fetch_extended-op o pre post vm arg plain room here fresh =
    let z : length pre ≡ length pre + 0 = omega arith in
    let first =
      ap (get_elem? (pre ++ (byte o ∷ post))) z ∙ get_elem?-append_right pre (byte o ∷ post) 0 in
    let e = next_byte_lem _ vm (length pre) (length pre + 1) (byte o) here first refl room in
    rw (e, arg, plain) refl
