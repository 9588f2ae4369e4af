-- ===== src/Tests.antt =====
-- Concrete runs, and the theorems at concrete inputs.
mod Encoding
mod Header
mod Node
mod Bufmgr
mod PointerMap
mod Logging
mod HashIndex
mod Wal
mod WalConnection
mod Slice
mod Cell
mod Pager
mod Freelist
