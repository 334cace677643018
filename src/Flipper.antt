-- ===== src/Flipper.antt =====
-- The tool of cw03/assignment/flipper.c, which reverses the lines of the text files of a directory.
pub mod Lines
pub mod Reverse
pub mod Files
pub mod Directory
mod Tests
