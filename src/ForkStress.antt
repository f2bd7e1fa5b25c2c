-- ===== src/ForkStress.antt =====
-- test35.c: many forks in a row while threads fault pages and migrate between nodes.
pub mod Calls
pub mod Worker
pub mod Rounds
pub mod Program
pub mod Ending
pub mod Slots
pub mod Children
