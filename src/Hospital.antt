-- ===== src/Hospital.antt =====
-- The hospital of cw10/assignment/main.c: a doctor, patients and pharmacists under one mutex.
pub mod Threads
pub mod System
pub mod Invariant
pub mod Room
pub mod Runs
pub mod Consultations
pub mod Queue
mod Tests
