-- ===== src/Types.antt =====
-- src/AST.h and src/Types.cpp: the types of the language, their interning tables and registries.
pub mod Base
pub mod Equality
pub mod Tables
pub mod Registry
pub mod Tests
