-- ===== src/Pool.antt =====
-- pool.c: the memory that a connection receives into, cut into slices.
pub mod Slices
pub mod Cursor
pub mod Layout
pub mod Index
pub mod Trees
pub mod Busy
pub mod Invariant
pub mod Take
pub mod Search
pub mod Alloc
pub mod Merge
pub mod Release
pub mod Refs
pub mod Others
pub mod Offsets
pub mod User
pub mod Runs
mod Tests
