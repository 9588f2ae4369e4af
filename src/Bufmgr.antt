-- ===== src/Bufmgr.antt =====
-- src/bufmgr.h and src/bufmgr.cpp: the buffer manager's lists of pages.
pub mod Dirtylist
pub mod Sort
pub mod PageTable
pub mod Cache
pub mod Flags
pub mod Bounds
pub mod Known
pub mod Lookups
