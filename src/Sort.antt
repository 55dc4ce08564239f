-- ===== src/Sort.antt =====
-- The array sorts of Programming/Data_Structure_and_Algorithms/Algorithm/Sort.
pub mod Swap
pub mod Bubble
pub mod Insertion
pub mod Quick
pub mod Selection
pub mod Shell
pub mod Spec
