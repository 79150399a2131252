-- ===== src/Opcodes.antt =====
-- vm/opcodes.go: the opcodes and their bytes.
use taipan.Prelude.{ℕ, Bool, leb, ◌≡◌, refl, Option, none, some, ◌==◌, if◌then◌else◌, List, [], ◌∷◌}

pub data OpCode : Type 0 where
  pop_top rot_two rot_three dup_top dup_top_two nop unary_positive unary_negative unary_not : OpCode
  unary_invert binary_power binary_multiply binary_modulo binary_add binary_subtract : OpCode
  binary_subscr binary_floor_divide binary_true_divide inplace_floor_divide : OpCode
  inplace_true_divide store_map inplace_add inplace_subtract inplace_multiply : OpCode
  inplace_modulo store_subscr delete_subscr binary_lshift binary_rshift binary_and : OpCode
  binary_xor binary_or inplace_power get_iter print_expr load_build_class yield_from : OpCode
  inplace_lshift inplace_rshift inplace_and inplace_xor inplace_or break_loop with_cleanup : OpCode
  return_value import_star yield_value pop_block end_finally pop_except store_name : OpCode
  delete_name unpack_sequence for_iter unpack_ex store_attr delete_attr store_global : OpCode
  delete_global load_const load_name build_tuple build_list build_set build_map load_attr : OpCode
  compare_op import_name import_from jump_forward jump_if_false_or_pop jump_if_true_or_pop : OpCode
  jump_absolute pop_jump_if_false pop_jump_if_true load_global continue_loop setup_loop : OpCode
  setup_except setup_finally load_fast store_fast delete_fast raise_varargs call_function : OpCode
  make_function build_slice make_closure load_closure load_deref store_deref delete_deref : OpCode
  call_function_var call_function_kw call_function_var_kw setup_with extended_arg : OpCode
  list_append set_add map_add load_classderef : OpCode

unfoldable pub byte : OpCode → ℕ
byte pop_top = 1
byte rot_two = 2
byte rot_three = 3
byte dup_top = 4
byte dup_top_two = 5
byte nop = 9
byte unary_positive = 10
byte unary_negative = 11
byte unary_not = 12
byte unary_invert = 15
byte binary_power = 19
byte binary_multiply = 20
byte binary_modulo = 22
byte binary_add = 23
byte binary_subtract = 24
byte binary_subscr = 25
byte binary_floor_divide = 26
byte binary_true_divide = 27
byte inplace_floor_divide = 28
byte inplace_true_divide = 29
byte store_map = 54
byte inplace_add = 55
byte inplace_subtract = 56
byte inplace_multiply = 57
byte inplace_modulo = 59
byte store_subscr = 60
byte delete_subscr = 61
byte binary_lshift = 62
byte binary_rshift = 63
byte binary_and = 64
byte binary_xor = 65
byte binary_or = 66
byte inplace_power = 67
byte get_iter = 68
byte print_expr = 70
byte load_build_class = 71
byte yield_from = 72
byte inplace_lshift = 75
byte inplace_rshift = 76
byte inplace_and = 77
byte inplace_xor = 78
byte inplace_or = 79
byte break_loop = 80
byte with_cleanup = 81
byte return_value = 83
byte import_star = 84
byte yield_value = 86
byte pop_block = 87
byte end_finally = 88
byte pop_except = 89
byte store_name = 90
byte delete_name = 91
byte unpack_sequence = 92
byte for_iter = 93
byte unpack_ex = 94
byte store_attr = 95
byte delete_attr = 96
byte store_global = 97
byte delete_global = 98
byte load_const = 100
byte load_name = 101
byte build_tuple = 102
byte build_list = 103
byte build_set = 104
byte build_map = 105
byte load_attr = 106
byte compare_op = 107
byte import_name = 108
byte import_from = 109
byte jump_forward = 110
byte jump_if_false_or_pop = 111
byte jump_if_true_or_pop = 112
byte jump_absolute = 113
byte pop_jump_if_false = 114
byte pop_jump_if_true = 115
byte load_global = 116
byte continue_loop = 119
byte setup_loop = 120
byte setup_except = 121
byte setup_finally = 122
byte load_fast = 124
byte store_fast = 125
byte delete_fast = 126
byte raise_varargs = 130
byte call_function = 131
byte make_function = 132
byte build_slice = 133
byte make_closure = 134
byte load_closure = 135
byte load_deref = 136
byte store_deref = 137
byte delete_deref = 138
byte call_function_var = 140
byte call_function_kw = 141
byte call_function_var_kw = 142
byte setup_with = 143
byte extended_arg = 144
byte list_append = 145
byte set_add = 146
byte map_add = 147
byte load_classderef = 148

-- `HAVE_ARGUMENT`
abbrev pub have_argument : ℕ
have_argument = 90

-- `HAS_ARG`
unfoldable pub has_arg : ℕ → Bool
has_arg op = leb have_argument op

-- All opcodes, in the order of their bytes.
opcodes : List OpCode
opcodes =
    pop_top ∷ rot_two ∷ rot_three ∷ dup_top ∷ dup_top_two ∷ nop ∷ unary_positive ∷ unary_negative
    ∷ unary_not ∷ unary_invert ∷ binary_power ∷ binary_multiply ∷ binary_modulo ∷ binary_add
    ∷ binary_subtract ∷ binary_subscr ∷ binary_floor_divide ∷ binary_true_divide
    ∷ inplace_floor_divide ∷ inplace_true_divide ∷ store_map ∷ inplace_add ∷ inplace_subtract
    ∷ inplace_multiply ∷ inplace_modulo ∷ store_subscr ∷ delete_subscr ∷ binary_lshift
    ∷ binary_rshift ∷ binary_and ∷ binary_xor ∷ binary_or ∷ inplace_power ∷ get_iter ∷ print_expr
    ∷ load_build_class ∷ yield_from ∷ inplace_lshift ∷ inplace_rshift ∷ inplace_and ∷ inplace_xor
    ∷ inplace_or ∷ break_loop ∷ with_cleanup ∷ return_value ∷ import_star ∷ yield_value ∷ pop_block
    ∷ end_finally ∷ pop_except ∷ store_name ∷ delete_name ∷ unpack_sequence ∷ for_iter ∷ unpack_ex
    ∷ store_attr ∷ delete_attr ∷ store_global ∷ delete_global ∷ load_const ∷ load_name ∷ build_tuple
    ∷ build_list ∷ build_set ∷ build_map ∷ load_attr ∷ compare_op ∷ import_name ∷ import_from
    ∷ jump_forward ∷ jump_if_false_or_pop ∷ jump_if_true_or_pop ∷ jump_absolute ∷ pop_jump_if_false
    ∷ pop_jump_if_true ∷ load_global ∷ continue_loop ∷ setup_loop ∷ setup_except ∷ setup_finally
    ∷ load_fast ∷ store_fast ∷ delete_fast ∷ raise_varargs ∷ call_function ∷ make_function
    ∷ build_slice ∷ make_closure ∷ load_closure ∷ load_deref ∷ store_deref ∷ delete_deref
    ∷ call_function_var ∷ call_function_kw ∷ call_function_var_kw ∷ setup_with ∷ extended_arg
    ∷ list_append ∷ set_add ∷ map_add ∷ load_classderef ∷ []

find : ℕ → List OpCode → Option OpCode
unfolding byte
find b [] = none
find b (op ∷ rest) = if byte op == b then some op else find b rest

-- The opcode that a byte of the code stands for.
unfoldable pub of_byte : ℕ → Option OpCode
unfolding find opcodes
of_byte b = find b opcodes

-- Different opcodes have different bytes: the byte of each opcode is read back as that opcode.
pub of_byte-byte : (op : OpCode) → of_byte (byte op) ≡ some op
unfolding of_byte byte
of_byte-byte pop_top = refl
of_byte-byte _ = refl
