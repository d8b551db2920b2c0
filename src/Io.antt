-- ===== src/Io.antt =====
-- The console, keyboard and mouse of src/io.c. The serial port, to which the same characters go, is left
-- out.
pub mod Screen
pub mod Print
pub mod Scrolls
pub mod Numbers
pub mod Keyboard
pub mod Line
pub mod Lines
pub mod Typing
pub mod Mouse
pub mod Packets
mod Tests
