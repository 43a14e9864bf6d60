-- ===== src/Machine.antt =====
-- The virtual machine: the objects, the stack of a process, and the instructions that work on
-- them (inc/eople_core.h, inc/eople_object.h, inc/eople_vm.h, src/eople_binop.cpp,
-- src/eople_control_flow.cpp, src/eople_vm.cpp).
pub mod Result
pub mod Object
pub mod Stack
pub mod State
pub mod Binop
pub mod Flow
pub mod Loops
pub mod Calls
pub mod Exec
pub mod Messages
mod Tests
