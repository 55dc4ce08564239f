-- ===== src/Queue.antt =====
-- The array queues of Programming/Data_Structure_and_Algorithms/Data_Structure/Queue.
pub mod Array
pub mod Bounded
