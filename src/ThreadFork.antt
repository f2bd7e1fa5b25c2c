-- ===== src/ThreadFork.antt =====
-- test34.c: threads on chosen nodes before and after a fork.
pub mod Worker
pub mod Program
pub mod Counters
pub mod Verdict
pub mod ChildVerdict
