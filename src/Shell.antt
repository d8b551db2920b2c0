-- ===== src/Shell.antt =====
-- The shell, src/shell.c: `Parse` reads a command line, `Texts` has what commands print, `Editor` the editor, `Run` runs a
-- command on the machine, the others what is proved of them.
pub mod Parse
pub mod Texts
pub mod Editor
pub mod Run
pub mod Printing
pub mod Answers
pub mod Printed
pub mod Edited
pub mod Saved
mod Tests
