-- ===== src/Match.antt =====
-- match.c: a connection's subscriptions to broadcast messages and kernel notifications.
pub mod Rules
pub mod Db
pub mod Freeing
pub mod Changes
pub mod Meaning
pub mod Holds
pub mod Delivery
mod Tests
