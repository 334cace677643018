-- ===== src/Integral.antt =====
-- The parallel integration of cw09/assignment/main.c.
pub mod Threads
pub mod Ranges
pub mod Exact
mod Tests
