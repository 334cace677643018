-- ===== src/Writers.antt =====
-- Parent and child that write to one file under a semaphore: Funkcje/Semafor POSIX/main.c and Funkcje/Semafor
-- SysV/main.c.
pub mod Programs
pub mod Machine
pub mod Shape
pub mod Invariant
pub mod Steps
pub mod Start
pub mod Progress
pub mod Outcome
mod Tests
