-- ===== src/Vga.antt =====
-- The frame buffer, src/vga.c: `Pixels` has the drawing primitives, `Rects` what they write, `Modes` the display modes.
pub mod Pixels
pub mod Rects
pub mod Modes
mod Tests
