-- ===== src/Quota.antt =====
-- connection.c: how much of a connection's pool and queue each sending user may use.
pub mod Account
pub mod Limits
mod Tests
