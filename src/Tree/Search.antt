-- ===== src/Tree/Search.antt =====
-- BinarySearchTree.c. A tree owns its nodes, so a function that changes one in place returns the
-- new tree, and `NULL` is `leaf`. A pointer to a node is the tree that hangs there.
pub mod Defs
pub mod Delete
pub mod Find
pub mod Insert
pub mod Inorder
pub mod Order
unfoldable pub use Defs.*
