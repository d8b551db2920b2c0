-- ===== src/Files.antt =====
-- The file system of src/file_system.c: `Effects` has what a call comes to, `Allocator` what it
-- takes from memory management, `HeapAllocator` the heap as such an allocator, `Defs` its operations, the
-- others what is proved of them.
pub mod Effects
pub mod Allocator
pub mod HeapAllocator
pub mod Defs
pub mod Calls
pub mod Lookup
pub mod Distinct
pub mod Owners
pub mod Steps
pub mod Laws
mod Tests
