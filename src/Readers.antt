-- ===== src/Readers.antt =====
-- Ways of reading a file: cw03/lab/readCompare.c.
pub mod Loops
pub mod Outputs
mod Tests
