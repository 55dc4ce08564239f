-- ===== src/Exercises.antt =====
-- Exercises of Programming/C_CPP/Pointers_On_C.
pub mod Copy
pub mod Identity
pub mod Lines
pub mod Matrix
pub mod Numbers
pub mod Repeated
pub mod Strings
