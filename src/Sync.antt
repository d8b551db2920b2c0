-- ===== src/Sync.antt =====
-- Locks, src/sync.c and src/sync.h.
pub mod Defs
