-- ===== src/Kernel.antt =====
-- The error handler of src/kernel.c, in `Errors`, and its start with the shell loop of src/shell.c, in `Main`.
pub mod Errors
pub mod Main
mod Tests
