-- ===== src/Threaded.antt =====
-- test3.c: replication is switched on and off while a second thread runs.
pub mod Handshake
pub mod Joining
pub mod Calls
pub mod Verdict
