-- ===== src/Discard.antt =====
-- madvise(MADV_DONTNEED) on replicated page tables: test16.c, test27.c and test33.c.
pub mod Partial
pub mod Debug
pub mod Minimal
pub mod Hygiene
pub mod Verdict
pub mod Detection
pub mod Pages
