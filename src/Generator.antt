-- ===== src/Generator.antt =====
-- The code generator of src/eople_vmcode_gen.cpp on the syntax trees of inc/eople_ast.h.
pub mod Scope
pub mod Ast
pub mod State
pub mod Expressions
pub mod Jumps
pub mod Statements
pub mod Growth
pub mod Counts
pub mod Lost
pub mod Meaning
mod Tests
