-- ===== src/Desktop.antt =====
-- The desktop, src/gui.c and src/gui.h: `Windows` has the stack of windows and the hit tests,
-- `Terminal` the text buffer of the terminal, `Font`, `Draw` and `Contents` the drawing, `Keys` and
-- `Events` the event loop, the others what is proved of them.
pub mod Windows
pub mod Stacking
pub mod Terminal
pub mod Cursor
pub mod Font
pub mod Draw
pub mod Contents
pub mod Drawn
pub mod Inside
pub mod Keys
pub mod Events
pub mod Rounds
pub mod Mousing
pub mod Dragging
mod Tests
