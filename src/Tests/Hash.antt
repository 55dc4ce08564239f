-- ===== src/Tests/Hash.antt =====
-- The hash tables on a few cells.
mod Open
mod Chained
