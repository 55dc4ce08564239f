-- ===== src/Tests/Tree.antt =====
-- The trees on a few nodes.
mod Search
mod Balanced
mod Expression
mod Plain
