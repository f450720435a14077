-- ===== src/Rbtree.antt =====
-- The kernel's red-black trees: the code descends by itself and leaves the rebalancing to the kernel.
mod Defs
mod Laws
mod Descents
mod Ordered
mod Plain
unfoldable pub use Defs.*
unfoldable pub use Laws.*
pub use Ordered.*
pub use Descents.*
unfoldable pub use Plain.*
