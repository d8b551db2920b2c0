-- ===== src/Memory.antt =====
-- Memory, src/memory_management.c: whole pages for processes, and a heap of blocks.
pub mod Pages
pub mod PageLaws
pub mod Heap
pub mod HeapLaws
pub mod HeapUse
pub mod HeapTrip
pub mod HeapTaken
mod Tests
