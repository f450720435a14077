-- ===== src/Queue.antt =====
-- queue.c: the messages that wait at a connection, by arrival and by priority.
pub mod Entries
pub mod Buckets
pub mod Place
pub mod Removal
pub mod State
pub mod Link
pub mod Unlink
pub mod Order
pub mod Receive
pub mod Runs
mod Tests
