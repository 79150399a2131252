-- ===== src/Lib.antt =====
-- Taipan, a Python 3.4 interpreter in Go: the parts of the program that carry its own logic.
--
-- A source text goes through fstring_rewrite.go, which turns f-strings into %-formatting, through
-- the parser and the compiler (compile/), which builds an instruction stream and assembles it into
-- bytes, and to the virtual machine (vm/), which runs the bytes on frames (py/frame.go) and calls
-- the objects of py/. An execution state (py/execution.go) counts opcodes, calls and output.
--
-- Prelude, Prelude/Int: shared names; Go's int and int64 as an integer with the 64-bit wrap-around
--   written out, int32 likewise.
-- Exceptions: the exceptions that the modelled code raises (py/exception.go), by class and format
--   string, and Go's pair of a value and an error as a result.
-- Execution: py/execution.go. Each method is a function of the state; what the host's context
--   answers at a call is an argument.
-- FString: fstring_rewrite.go, function for function, over lists of bytes. Positions into the
--   source are the suffixes that they point to. The loops take fuel: the number of bytes left plus
--   one, which is enough since each round takes a byte at least.
-- Slice: GetIndices of py/slice.go, with IndexInt of py/internal.go.
-- Range: py/range.go, over 64-bit integers; a panic by a division is an outcome.
-- Escapes: DecodeEscape of parser/stringescape.go, over the runes of a literal; what it writes is
--   a list of runes and bytes. The loop has a round more than there are runes as fuel.
--   strconv.ParseInt is a parameter. Escapes/Pieces describes the escape sequences apart from the
--   code.
-- Indents: the indentation in parser/lexer.go: countIndent, the state checkIndent of Lex, its
--   queue and queueDedents. A line is its margin and one token that stands for the others;
--   lex_lines is the order in which Lex takes the states for the lines of a file.
-- Generators: the definitions of Send and __next__ of py/generator.go, over a function that stands
--   for RunFrame of vm/eval.go.
-- Integers: py/int.go, py/bigint.go and the operators of py/arithmetic.go on them and on
--   Booleans. A BigInt is an integer, as in Go's math/big; Integers/Machine has what py/int.go does
--   on two int64 values, Integers/Operators how an operator chooses a method by the types.
-- Mro: the method resolution order of classes, mro_implementation and pmerge of py/type.go. A class
--   is a number, and of a list that is merged the state has what is left of it. The fuel is the
--   number of items and one more, since each round takes an item.
-- Symtable: the second pass of symtable/symtable.go, AnalyzeName to Analyze; Go's maps are lists in
--   any order, and the sets that a function changes are handed on.
-- Opcodes: vm/opcodes.go.
-- Vm: vm/vm.go, vm/eval.go and py/frame.go. Vm/State has the machine's state, with both stacks as
--   lists whose head is the top; Vm/Stack and Vm/Jumps the opcodes do_POP_TOP to do_SETUP_FINALLY
--   and the jumps; Vm/Fetch how runFrame reads an opcode and its argument; Vm/Unwind its loop over
--   the block stack; Vm/Arguments how EvalCode binds the arguments of a call, where the keywords, a
--   Go map, are a list in any order. What an object's own methods answer (its truth, its next item)
--   is a parameter.
-- Ast: the expressions of ast/ast.go.
-- Compile: compile/instructions.go and, for expressions, compile/compile.go. Compile/Instructions
--   has the stream, SetPos, Resolve, Pass and Assemble; a label is shared by the stream and its
--   jumps, so its position is in a store. The ten passes of Assemble are its fuel, and running out
--   is the panic of the source. Compile/Lnotab has Lnotab and Addr2Line of py/code.go, which counts
--   from Firstlineno; compile/compile.go sets it to 1. Compile/Emission has Op to Jump, Const,
--   Index and NameOp of compile/compile.go, with the compiler's state passed on,
--   Compile/Expressions its Expr, and Compile/Loops its Break and Continue on the stack of loops;
--   Compile/Expressions/Meaning has what an expression means, apart from the code. Vm/Operators,
--   Vm/Names and Vm/Dispatch have the opcodes that expressions compile to and the jump table. The
--   functions of py/ that operators and attributes call are parameters, which do not change the
--   state: a method that writes to a variable is outside the model. runFrame's checks of the
--   execution limits between two opcodes are in Execution alone.
--
-- Not modelled: the parser that goyacc generates; the code of other statements, calls, displays
-- and comprehensions; the stack depth of compile/; floats and complex numbers, which are the
-- host's; the other opcodes that call the object model; modules, imports, files and built-in
-- functions.
pub mod Prelude
pub mod Exceptions
pub mod Execution
pub mod FString
pub mod Slice
pub mod Escapes
pub mod Generators
pub mod Indents
pub mod Integers
pub mod Mro
pub mod Symtable
pub mod Range
pub mod Opcodes
pub mod Vm
pub mod Ast
pub mod Compile
