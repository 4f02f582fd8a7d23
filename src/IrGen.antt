-- ===== src/IrGen.antt =====
-- src/IRGen.cpp: the code generator.
pub mod Drops
mod Tests
