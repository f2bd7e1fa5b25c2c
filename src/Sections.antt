-- ===== src/Sections.antt =====
-- test18.c: four threads that each write and verify a section of a mapping of their own.
pub mod Worker
pub mod Program
pub mod Steps
pub mod Interleaving
pub mod Reference
pub mod Refinement
pub mod Asking
pub mod Verdict
