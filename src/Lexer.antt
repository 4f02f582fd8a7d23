-- ===== src/Lexer.antt =====
-- src/Lexer.h and src/Lexer.cpp: from bytes to tokens.
pub mod Token
pub mod Keywords
pub mod Chars
pub mod Cursor
pub mod Numbers
pub mod Literals
pub mod Operators
pub mod Lex
pub mod Tests
