-- ===== src/Graph.antt =====
-- Data_Structure/Graph.
pub mod Breadth
