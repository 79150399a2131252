-- ===== src/Vm.antt =====
-- vm/vm.go, vm/eval.go and py/frame.go: the virtual machine's state, its stack and block
-- operations, and the unwinding of the block stack.
pub mod State
pub mod Stack
pub mod Jumps
pub mod Unwind
pub mod Fetch
pub mod Arguments
pub mod Operators
pub mod Names
pub mod Dispatch
mod Tests
