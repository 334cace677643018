-- ===== src/PrintQueue.antt =====
-- The print queue of cw08/assignment/main.c: users and printers over a circular buffer in shared
-- memory, with three POSIX semaphores.
pub mod System
pub mod Window
pub mod Invariant
pub mod Safety
pub mod Progress
mod Tests
