-- ===== src/Node.antt =====
-- node.c: the life of a node, between its activation and the release of its last active reference.
pub mod Counter
pub mod Threads
pub mod Phases
pub mod Waits
pub mod Release
pub mod Life
pub mod Finite
pub mod End
pub mod Children
pub mod NameOrder
pub mod Siblings
pub mod Linking
mod Tests
