-- ===== src/Lexer.antt =====
-- src/lexer.rs: the lexer. Its state is a record passed from call to call.
pub mod Chars
pub mod State
pub mod Strings
pub mod Numbers
pub mod Next
