-- ===== src/Linked.antt =====
-- The singly linked lists of the Data_Structure directory: Linked_list/Single Linked List, and the
-- linked versions of the stack and the queue.
pub mod Double
pub mod Memory
pub mod Chain
pub mod Merged
pub mod Single
pub mod Queue
pub mod Stack
pub mod Store
pub mod Walk
