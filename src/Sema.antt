-- ===== src/Sema.antt =====
-- src/Sema.cpp: the type checker's own tables and helpers.
pub mod Suggest
pub mod Scopes
pub mod Inherit
mod Tests
