-- ===== src/Dispatch.antt =====
-- src/ProofDispatch.h and src/ProofDispatch.cpp: the verdicts of solvers, and the proof log.
pub mod Json
pub mod Merge
pub mod Tests
