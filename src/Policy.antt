-- ===== src/Policy.antt =====
-- policy.c and the policy checks of connection.c: who may own, talk to and see well-known names.
pub mod Db
pub mod Query
pub mod Set
pub mod Lists
pub mod Atomic
pub mod Wildcard
pub mod Checks
mod Tests
