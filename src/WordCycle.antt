-- ===== src/WordCycle.antt =====
-- Threads that print the words of a dictionary in turn: Funkcje/Mutex/zad1.c.
pub mod System
pub mod Invariant
pub mod Outcome
mod Tests
