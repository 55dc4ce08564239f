-- ===== src/Stack.antt =====
-- The array stacks of Programming/Data_Structure_and_Algorithms/Data_Structure/Stack.
pub mod Array
pub mod Bounded
