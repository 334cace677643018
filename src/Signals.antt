-- ===== src/Signals.antt =====
-- Signals with acknowledgement: cw05/assignment/catcher.c and cw05/assignment/sender.c.
pub mod Catcher
pub mod System
pub mod History
pub mod Invariant
pub mod Exchange
pub mod Outcome
mod Tests
