-- ===== src/Collatz.antt =====
-- The library of cw02/assignment/collatz.c and its use in client.c.
pub mod Defs
pub mod Orbit
pub mod Overflow
mod Tests
