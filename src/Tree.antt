-- ===== src/Tree.antt =====
-- The trees of Programming/Data_Structure_and_Algorithms/Data_Structure/Tree.
pub mod Balanced
pub mod Expression
pub mod Plain
pub mod Search
