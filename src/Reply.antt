-- ===== src/Reply.antt =====
-- reply.c: the trackers of method calls that wait for their reply.
pub mod Tracker
pub mod Balance
pub mod Runs
pub mod Lookup
mod Tests
