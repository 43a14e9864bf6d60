-- ===== src/Parser.antt =====
-- The expressions of the parser in src/eople_parse.cpp: `Node` for the trees, `State` for the parser and
-- its tokens, `Symbols` and `Literals` for the leaves, `Calls` and `Elements` for calls, messages and
-- literals with elements, `Factor` for `ParseFactor` and `Operators` for the levels of binary operators.
pub mod Node
pub mod State
pub mod Symbols
pub mod Literals
pub mod Calls
pub mod Elements
pub mod Factor
pub mod Operators
mod Tests
