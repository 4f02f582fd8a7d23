-- ===== src/Parser.antt =====
-- src/Parser.cpp: the parser of expressions.
pub mod State
pub mod Node
pub mod Levels
pub mod Postfix
pub mod Primary
pub mod Expr
pub mod Grammar
pub mod Total
mod Tests
