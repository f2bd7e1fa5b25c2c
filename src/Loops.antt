-- ===== src/Loops.antt =====
-- The loops by which the tests write a pattern into memory and read it back, and what they do on
-- memory that keeps what is written.
mod Code
unfoldable pub use Code.*
pub mod Bytes
pub mod Words
pub mod Pages
pub mod Texts
