-- ===== src/Doom.antt =====
-- The port of DOOM, src/doom_port.c. PureDOOM.h is another project's code: what it asks of the port is
-- modelled (`Wad` its file, `Reading` what is proved of it, `Screen` its picture, `Keys` its keys and clock),
-- the bytes of the WAD and of its picture are arguments.
pub mod Wad
pub mod Reading
pub mod Seeking
pub mod Screen
pub mod Keys
mod Tests
