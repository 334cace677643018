-- ===== src/ThreadJoin.antt =====
-- The threads of Funkcje/Mutex/main.c: `main` waits on a condition variable and joins the threads that
-- have ended.
pub mod System
pub mod Invariant
pub mod Threads
pub mod Joining
pub mod Main
pub mod Outcome
pub mod Progress
pub mod Termination
mod Tests
