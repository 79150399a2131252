-- ===== src/Compile.antt =====
-- compile/instructions.go: the instruction stream that the compiler builds, its assembly into
-- bytes and its line number table.
pub mod Instructions
pub mod Emission
pub mod Expressions
pub mod Lnotab
pub mod Loops
mod Tests
