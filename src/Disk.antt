-- ===== src/Disk.antt =====
-- The disk scheduler, src/disk_scheduler.c: `Defs` has the code, `Sstf` what shortest seek time first
-- means without the code, `Submit` to `Serve` the proofs.
pub mod Defs
pub mod Sstf
pub mod Submit
pub mod Search
pub mod Serve
mod Tests
