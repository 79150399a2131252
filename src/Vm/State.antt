-- ===== src/Vm/State.antt =====
-- vm/vm.go and py/frame.go: the state of the virtual machine. The parts of the current frame that
-- the modelled opcodes change (`Lasti`, `Stack`, `Blockstack`) are fields of the machine. Both
-- stacks are lists with the top first; `frame.Block` is the head of the block stack, or nil.
use taipan.Prelude.{ℕ, Bool, Option, none, some, List, [], ◌∷◌, ◌==◌, if◌then◌else◌}
use taipan.Prelude.Int.{ℤ, wrap32, ◌+ℤ◌}
use taipan.Exceptions.{Exception}

-- A `*py.Type`: its identity, and whether it has the flag of the exception classes.
pub record TypeObject : Type 0 where
  pub id : ℕ
  pub is_exception_class : Bool

-- A Python object, as far as the block machinery looks at it. `nil_object` is Go's nil interface;
-- a traceback may be a nil pointer; `value` is any other object, by its identity.
pub data Object : Type 0 where
  nil_object none_object : Object
  int : ℤ → Object
  type_object : TypeObject → Object
  traceback : Option ℕ → Object
  value : ℕ → Object

pub data TryBlockType : Type 0 where
  setup_loop setup_except setup_finally except_handler : TryBlockType

pub record TryBlock : Type 0 where
  pub type : TryBlockType
  pub handler : ℤ
  pub level : ℕ

-- `vmStatus`; `why_other` is a byte that is no status.
pub data Why : Type 0 where
  why_not why_exception why_return why_break : Why
  why_continue why_yield why_external_call why_silenced : Why
  why_other : ℕ → Why

abbrev pub why_code : Why → ℕ
why_code why_not = 0
why_code why_exception = 1
why_code why_return = 2
why_code why_break = 3
why_code why_continue = 4
why_code why_yield = 5
why_code why_external_call = 6
why_code why_silenced = 7
why_code (why_other n) = n

-- `vmStatus(n)` of a byte.
unfoldable pub why_of_code : ℕ → Why
why_of_code n =
    if n == 0
    then why_not
    else if n == 1
    then why_exception
    else if n == 2
    then why_return
    else if n == 3
    then why_break
    else if n == 4
    then why_continue
    else if n == 5
    then why_yield
    else if n == 6
    then why_external_call
    else if n == 7
    then why_silenced
    else why_other n

-- `py.ExceptionInfo`; a nil type is `none`.
pub record ExceptionInfo : Type 0 where
  pub type : Option TypeObject
  pub value : Object
  pub traceback : Option ℕ

pub record Vm : Type 0 where
  pub lasti : ℤ
  pub stack : List Object
  pub blocks : List TryBlock
  pub yielded : Bool
  pub extended : Bool
  pub ext : ℤ
  pub retval : Object
  pub why : Why
  pub curexc : ExceptionInfo
  pub exc : ExceptionInfo

-- What an opcode's function does: it returns nil, returns an error, or panics.
pub data Effect : Type 0 where
  done : Vm → Effect
  error : Exception → Vm → Effect
  panic : Effect

abbrev pub or_panic : Option Vm → Effect
or_panic none = panic
or_panic (some vm) = done vm

-- `frame.PushBlock`
abbrev pub push_block : TryBlockType → ℤ → ℕ → Vm → Vm
push_block t handler level vm = record vm {
  blocks = (record { type = t; handler = handler; level = level }) ∷ vm.blocks;
}

-- `frame.PopBlock`, which panics on an empty block stack.
abbrev pub pop_block : List TryBlock → Vm → Option (TryBlock × Vm)
pop_block [] vm = none
pop_block (b ∷ rest) vm = some (b, record vm { blocks = rest })

abbrev pub push : Object → Vm → Vm
push x vm = record vm { stack = x ∷ vm.stack }

-- `lasti + delta`, in 32 bits.
abbrev pub jump_by : ℤ → Vm → ℤ
jump_by delta vm = wrap32 (vm.lasti +ℤ delta)
