-- ===== src/Lexer.antt =====
-- The lexer of src/eople_lex.cpp and inc/eople_lex.h: `Token` for its tokens and keywords, `Scan` for
-- its character loops, `Next` for `NextToken` and the run of it over a whole buffer.
pub mod Token
pub mod Scan
pub mod Next
pub mod Progress
pub mod Keywords
pub mod Lines
pub mod RoundTrip
mod Tests
