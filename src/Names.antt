-- ===== src/Names.antt =====
-- names.c and names.h: well-known names, their syntax, the registry and its commands.
pub mod Syntax
pub mod Elements
pub mod Wildcard
pub mod State
pub mod Registry
pub mod Counts
pub mod Lookup
pub mod Links
pub mod Replace
pub mod Acquire
pub mod Others
pub mod Grants
pub mod Release
pub mod Teardown
pub mod Commands
mod Tests
