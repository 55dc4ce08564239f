-- ===== src/Tree/Balanced.antt =====
-- BinaryBalanceTree.c. A tree owns its nodes: `NULL` is `leaf`, and a pointer to a node is the
-- tree that hangs there. The field `height` is a number that is never negative.
pub mod Defs
pub mod Content
pub mod Branches
pub mod Left
pub mod Right
pub mod Delete
pub mod Find
pub mod Insert
pub mod Order
pub mod Rotate
unfoldable pub use Defs.*
