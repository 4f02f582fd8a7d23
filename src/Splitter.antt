-- ===== src/Splitter.antt =====
-- src/ProofSplitter.h and src/ProofSplitter.cpp: a proof goal is split into goals for the solver.
pub mod Expr
pub mod Subst
pub mod Split
pub mod Meaning
pub mod Instances
pub mod Ranges
pub mod Sound
pub mod Exists
pub mod Tactic
pub mod Parts
pub mod Ground
pub mod Tests
