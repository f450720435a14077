-- ===== src/Item.antt =====
-- item.c and the parser of handle.c: chains of items in a command that user space passes.
pub mod Validate
pub mod Walk
pub mod Tiling
pub mod Args
pub mod Accept
pub mod Parse
mod Tests
