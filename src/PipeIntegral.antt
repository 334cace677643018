-- ===== src/PipeIntegral.antt =====
-- The integral of cw06/assignment/zad1.c, summed by processes that answer over pipes.
pub mod Area
pub mod System
pub mod Invariant
pub mod Outcome
mod Tests
