-- ===== src/Compile/Loops.antt =====
-- compile/compile.go: `break` and `continue` against the stack of enclosing loops and try statements.
-- The stack has its top first, and a loop's start is a label.
use taipan.Prelude.{ℕ, Bool, true, false, ◌≡◌, List, [], ◌∷◌}
use taipan.Exceptions.{Result, ok, err, ◌>>=◌, Exception, exception, syntax_error}
use taipan.Opcodes.{OpCode, jump_absolute, continue_loop, break_loop}

pub data LoopType : Type 0 where
  loop_loop except_loop finally_try_loop finally_end_loop : LoopType

pub record Loop : Type 0 where
  pub start : ℕ
  pub type : LoopType

abbrev loop_error : Exception
loop_error = exception syntax_error "'continue' not properly in loop"

abbrev in_finally_error : Exception
in_finally_error = exception syntax_error "'continue' not supported inside 'finally' clause"

unfoldable pub break_statement : List Loop → Result OpCode
break_statement [] = err (exception syntax_error "'break' outside loop")
break_statement (l ∷ loops) = ok break_loop

-- The next loop out, which is not to be left by way of a finally clause: at an entry of this type,
-- in front of what is found further out.
next_of : LoopType → ℕ → Result ℕ → Result ℕ
next_of loop_loop start rest = ok start
next_of finally_end_loop start rest = err in_finally_error
next_of _ start rest = rest

next_loop : List Loop → Result ℕ
unfolding next_of
next_loop [] = err loop_error
next_loop (l ∷ loops) = next_of l.type l.start (next_loop loops)

abbrev leave_try : ℕ → Result (OpCode × ℕ)
leave_try start = ok (continue_loop, start)

-- The jump to the start of a loop, from an entry of this type.
continue_of : LoopType → ℕ → Result ℕ → Result (OpCode × ℕ)
continue_of loop_loop start rest = ok (jump_absolute, start)
continue_of finally_end_loop start rest = err in_finally_error
continue_of _ start rest = rest >>= leave_try

unfoldable pub continue_statement : List Loop → Result (OpCode × ℕ)
unfolding next_loop continue_of
continue_statement [] = err loop_error
continue_statement (l ∷ loops) = continue_of l.type l.start (next_loop loops)

-- The innermost loop starts there, and between it and the statement are only the bodies and the
-- handlers of try statements.
abbrev is_try : LoopType → Bool
is_try except_loop = true
is_try finally_try_loop = true
is_try _ = false

pub data Innermost (d : ℕ) : List Loop → Type 0 where
  inside :
      {l : Loop} {loops : List Loop} → l.type ≡ loop_loop → l.start ≡ d → Innermost d (l ∷ loops)
  out_of_try :
      {l : Loop} {loops : List Loop}
      → is_try l.type ≡ true
      → Innermost d loops
      → Innermost d (l ∷ loops)

-- The plain jump from a loop's own body, and the one that leaves try statements.
abbrev way : LoopType → OpCode
way loop_loop = jump_absolute
way _ = continue_loop

abbrev pub way_out : List Loop → OpCode
way_out [] = continue_loop
way_out (l ∷ loops) = way l.type
